-- ===== src/Acl/Defined.antt =====
-- acl/acl_update.c never reads the permissions of an entry for which parseACL() stored none.
use computer_science_notes.Base.{
  ℕ, zero, suc, ◌≡◌, refl, Bool, true, false, ◌==◌, Option, none, some, if◌then◌else◌, arith,
}
use computer_science_notes.Acl.Parse.{Tag, Permissions, AccessControlEntry}
use computer_science_notes.Acl.Calls.{
  Ended, done, exited, running, undefined, pure, call, ◌>>=◌, ◌>>◌, Perm, acl_read, acl_write,
  acl_execute, Libacl,
}
use computer_science_notes.Acl.Bounds.{is_set}
use computer_science_notes.Acl.Update.{
  Run, is_qualified, matches, examine_entry, find_from, add_if, set_perms, entry_for, same_tag,
  has_id, set_stored, remove_entry, modify_entry,
}

abbrev pub is_defined : {W A : Type 0} → Ended W A → Bool
is_defined undefined = false
is_defined _ = true

-- A part of the program that does not end in such a read, in any world.
pub record IsDefined {W A : Type 0} (m : W → Ended W A) : Type 0 where
  pub holds : (w : W) → is_defined (m w) ≡ true

bind-is_defined :
    {W A B : Type 0} (r : Ended W A) (f : A → W → Ended W B) (w : W)
    → is_defined r ≡ true
    → ((a : A) → IsDefined (f a))
    → is_defined (((λ (_ : W). r) >>= f) w) ≡ true
bind-is_defined (done a w') f w e g = (g a).holds w'
bind-is_defined (exited b w') f w e g = refl
bind-is_defined (running w') f w e g = refl
bind-is_defined undefined f w e g = absurd (ground arith)

call-is_defined :
    {W A : Type 0} (r : Option A × W) (w : W) → is_defined (call (λ (_ : W). r) w) ≡ true
call-is_defined (none, w') w = refl
call-is_defined (some a, w') w = refl

module _ {W : Type 0} where
  pub call-IsDefined : {A : Type 0} (f : W → Option A × W) → IsDefined (call f)
  call-IsDefined f = record { holds = λ w. call-is_defined (f w) w }

  pub now : {A : Type 0} (m : W → Ended W A) → ((w : W) → is_defined (m w) ≡ true) → IsDefined m
  now m h = record { holds = h }

  pub bind-IsDefined :
      {A B : Type 0} (m : W → Ended W A) (f : A → W → Ended W B)
      → IsDefined m
      → ((a : A) → IsDefined (f a))
      → IsDefined (m >>= f)
  bind-IsDefined m f h g = record { holds = λ w. bind-is_defined (m w) f w (h.holds w) g }

  pub then-IsDefined :
      {A B : Type 0} (m : W → Ended W A) (n : W → Ended W B)
      → IsDefined m
      → IsDefined n
      → IsDefined (m >> n)
  then-IsDefined m n h g = bind-IsDefined m (λ _. n) h (λ _. g)

  pub if-IsDefined :
      {A : Type 0} (b : Bool) (m n : W → Ended W A)
      → IsDefined m
      → IsDefined n
      → IsDefined (if b then m else n)
  if-IsDefined true m n h g = h
  if-IsDefined false m n h g = g

module _ (lib : Libacl) where
  is_qualified-IsDefined : (qual : ℕ) (entry : lib.Entry) → IsDefined (is_qualified lib qual entry)
  unfolding is_qualified
  is_qualified-IsDefined qual entry =
      bind-IsDefined _ _ (call-IsDefined (lib.acl_get_qualifier entry)) (λ q.
        bind-IsDefined _ _ (now (λ w. done (qual == lib.id_at q w) w) (λ w. refl)) (λ same.
          then-IsDefined _ _ (call-IsDefined (lib.acl_free_qualifier q))
            (now (pure same) (λ w. refl))))

  matches-IsDefined :
      (tag : Tag) (qual : ℕ) (entry : lib.Entry) → IsDefined (matches lib tag qual entry)
  unfolding matches
  matches-IsDefined tag qual entry =
      bind-IsDefined _ _ (call-IsDefined (lib.acl_get_tag_type entry)) (λ t.
        if-IsDefined (same_tag tag t) _ _
          (if-IsDefined (has_id tag) _ _ (is_qualified-IsDefined qual entry)
            (now (pure true) (λ w. refl)))
          (now (pure false) (λ w. refl)))

  examine_entry-IsDefined :
      (tag : Tag) (qual : ℕ) (again : Run lib (Option lib.Entry)) (found : Option lib.Entry)
      → IsDefined again
      → IsDefined (examine_entry lib tag qual again found)
  unfolding examine_entry
  examine_entry-IsDefined tag qual again none h = now (pure none) (λ w. refl)
  examine_entry-IsDefined tag qual again (some entry) h =
      bind-IsDefined _ _ (matches-IsDefined tag qual entry)
        (λ found. if-IsDefined found _ _ (now (pure (some entry)) (λ w. refl)) h)

  pub find_from-IsDefined :
      (fuel : ℕ) (first : Bool) (acl : lib.Acl) (tag : Tag) (qual : ℕ)
      → IsDefined (find_from lib fuel first acl tag qual)
  unfolding find_from
  find_from-IsDefined zero first acl tag qual = now running (λ w. refl)
  find_from-IsDefined (suc fuel) first acl tag qual =
      bind-IsDefined _ _ (call-IsDefined (lib.acl_get_entry acl first)) (λ found.
        examine_entry-IsDefined tag qual (find_from lib fuel false acl tag qual) found
          (find_from-IsDefined fuel false acl tag qual))

  add_if-IsDefined :
      (b : Bool) (permset : lib.Permset) (p : Perm) → IsDefined (add_if lib b permset p)
  unfolding add_if
  add_if-IsDefined b permset p =
      if-IsDefined b _ _ (call-IsDefined (lib.acl_add_perm permset p)) (now (pure tt) (λ w. refl))

  set_perms-IsDefined :
      (entry : lib.Entry) (perms : Permissions) → IsDefined (set_perms lib entry perms)
  unfolding set_perms
  set_perms-IsDefined entry perms =
      bind-IsDefined _ _ (call-IsDefined (lib.acl_get_permset entry)) (λ permset.
        then-IsDefined _ _ (call-IsDefined (lib.acl_clear_perms permset)) (
          then-IsDefined _ _ (add_if-IsDefined perms.read permset acl_read) (
            then-IsDefined _ _ (add_if-IsDefined perms.write permset acl_write) (
              then-IsDefined _ _ (add_if-IsDefined perms.execute permset acl_execute)
                (call-IsDefined (lib.acl_set_permset entry permset))))))

  entry_for-IsDefined :
      (acl : lib.Acl) (ace : AccessControlEntry) (found : Option lib.Entry)
      → IsDefined (entry_for lib acl ace found)
  unfolding entry_for
  entry_for-IsDefined acl ace (some entry) = now (pure (acl, entry)) (λ w. refl)
  entry_for-IsDefined acl ace none =
      bind-IsDefined _ _ (call-IsDefined (lib.acl_create_entry acl)) (λ made.
        then-IsDefined _ _ (call-IsDefined (lib.acl_set_tag_type made.1 ace.tag)) (
          then-IsDefined _ _
            (if-IsDefined (has_id ace.tag) _ _
              (call-IsDefined (lib.acl_set_qualifier made.1 ace.qual)) (now (pure tt) (λ w. refl)))
            (now (pure made) (λ w. refl))))

  set_stored-IsDefined :
      (entry : lib.Entry) (perms : Option Permissions)
      → is_set perms ≡ true
      → IsDefined (set_stored lib entry perms)
  unfolding set_stored
  set_stored-IsDefined entry none h = absurd (ground arith)
  set_stored-IsDefined entry (some perms) h = set_perms-IsDefined entry perms

  pub modify_entry-IsDefined :
      (acl : lib.Acl) (ace : AccessControlEntry) (found : Option lib.Entry)
      → is_set ace.perms ≡ true
      → IsDefined (modify_entry lib acl ace found)
  unfolding modify_entry
  modify_entry-IsDefined acl ace found h =
      bind-IsDefined _ _ (entry_for-IsDefined acl ace found) (λ made.
        then-IsDefined _ _ (set_stored-IsDefined made.1 ace.perms h)
          (now (pure made.0) (λ w. refl)))

  pub remove_entry-IsDefined :
      (acl : lib.Acl) (found : Option lib.Entry) → IsDefined (remove_entry lib acl found)
  unfolding remove_entry
  remove_entry-IsDefined acl none = now (pure acl) (λ w. refl)
  remove_entry-IsDefined acl (some entry) =
      then-IsDefined _ _ (call-IsDefined (lib.acl_delete_entry acl entry))
        (now (pure acl) (λ w. refl))
