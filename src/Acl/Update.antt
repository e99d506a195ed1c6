-- ===== src/Acl/Update.antt =====
-- findEntry(), setPerms() and updateACL() of acl/acl_update.c.
use computer_science_notes.Base.{
  ℕ, zero, suc, Bool, true, false, Option, none, some, List, [], ◌∷◌, ◌==◌, if◌then◌else◌,
}
use computer_science_notes.Acl.Parse.{
  Tag, acl_user_obj, acl_user, acl_group_obj, acl_group, acl_mask, acl_other, Permissions,
  AccessControlEntry,
}
use computer_science_notes.Acl.Calls.{
  Ended, done, running, undefined, ⊤, pure, exit_success, err_exit, call, ◌>>=◌, ◌>>◌, AclType,
  type_access, type_default, Perm, acl_read, acl_write, acl_execute, Libacl,
}

abbrev pub same_tag : Tag → Tag → Bool
same_tag acl_user_obj acl_user_obj = true
same_tag acl_user acl_user = true
same_tag acl_group_obj acl_group_obj = true
same_tag acl_group acl_group = true
same_tag acl_mask acl_mask = true
same_tag acl_other acl_other = true
same_tag _ _ = false

-- `tag == ACL_USER || tag == ACL_GROUP`
abbrev pub has_id : Tag → Bool
has_id acl_user = true
has_id acl_group = true
has_id _ = false

-- The operations that main() tells apart.
pub data Operation : Type 0 where
  unspecified_op : Operation
  modify_entries : Operation
  remove_entries : Operation
  remove_default_acl : Operation
  check_valid_acl : Operation

abbrev pub is_modify : Operation → Bool
is_modify modify_entries = true
is_modify _ = false

abbrev pub is_remove : Operation → Bool
is_remove remove_entries = true
is_remove _ = false

module _ (lib : Libacl) where
  abbrev pub Run : Type 0 → Type 0
  Run A = lib.World → Ended lib.World A

  -- `qual == *uidp`, and acl_free().
  unfoldable pub is_qualified : ℕ → lib.Entry → Run Bool
  is_qualified qual entry = do
    q ← call (lib.acl_get_qualifier entry)
    same ← λ w. done (qual == lib.id_at q w) w
    call (lib.acl_free_qualifier q)
    pure same

  -- Whether an entry is the one that findEntry() looks for.
  unfoldable pub matches : Tag → ℕ → lib.Entry → Run Bool
  matches tag qual entry = do
    entry_tag ← call (lib.acl_get_tag_type entry)
    if same_tag tag entry_tag
        then (if has_id tag then is_qualified qual entry else pure true)
        else pure false

  -- A round of findEntry()'s loop, where `again` is the next one.
  unfoldable pub examine_entry :
      Tag → ℕ → Run (Option lib.Entry) → Option lib.Entry → Run (Option lib.Entry)
  examine_entry tag qual again none = pure none
  examine_entry tag qual again (some entry) = do
    found ← matches tag qual entry
    if found then pure (some entry) else again

  -- The loop, for at most `fuel` entries.
  unfoldable pub find_from : ℕ → Bool → lib.Acl → Tag → ℕ → Run (Option lib.Entry)
  find_from zero first acl tag qual = running
  find_from (suc fuel) first acl tag qual =
      call (lib.acl_get_entry acl first)
      >>= examine_entry tag qual (find_from fuel false acl tag qual)

  -- findEntry()
  unfoldable pub find_entry : ℕ → lib.Acl → Tag → ℕ → Run (Option lib.Entry)
  find_entry fuel acl tag qual = find_from fuel true acl tag qual

  unfoldable pub add_if : Bool → lib.Permset → Perm → Run ⊤
  add_if b permset p = if b then call (lib.acl_add_perm permset p) else pure tt

  -- setPerms()
  unfoldable pub set_perms : lib.Entry → Permissions → Run ⊤
  set_perms entry perms = do
    permset ← call (lib.acl_get_permset entry)
    call (lib.acl_clear_perms permset)
    add_if perms.read permset acl_read
    add_if perms.write permset acl_write
    add_if perms.execute permset acl_execute
    call (lib.acl_set_permset entry permset)

  -- The entry to modify: a new one where there is none.
  unfoldable pub entry_for :
      lib.Acl → AccessControlEntry → Option lib.Entry → Run (lib.Acl × lib.Entry)
  entry_for acl ace (some entry) = pure (acl, entry)
  entry_for acl ace none = do
    (acl', entry) ← call (lib.acl_create_entry acl)
    call (lib.acl_set_tag_type entry ace.tag)
    if has_id ace.tag then call (lib.acl_set_qualifier entry ace.qual) else pure tt
    pure (acl', entry)

  unfoldable pub set_stored : lib.Entry → Option Permissions → Run ⊤
  set_stored entry none = λ w. undefined
  set_stored entry (some perms) = set_perms entry perms

  unfoldable pub remove_entry : lib.Acl → Option lib.Entry → Run lib.Acl
  remove_entry acl none = pure acl
  remove_entry acl (some entry) = call (lib.acl_delete_entry acl entry) >> pure acl

  unfoldable pub modify_entry : lib.Acl → AccessControlEntry → Option lib.Entry → Run lib.Acl
  modify_entry acl ace found = do
    (acl', entry) ← entry_for acl ace found
    set_stored entry ace.perms
    pure acl'

  -- The operation of a round of updateACL()'s loop.
  unfoldable pub apply_entry : ℕ → Bool → AccessControlEntry → lib.Acl → Run lib.Acl
  apply_entry fuel remove ace acl = do
    entry ← find_entry fuel acl ace.tag ace.qual
    if remove then remove_entry acl entry else modify_entry acl ace entry

  -- A round.
  unfoldable pub update_round :
      ℕ → List ℕ → AclType → Bool → Bool → AccessControlEntry → lib.Acl → Run lib.Acl
  update_round fuel file type remove recalc_mask ace acl = do
    acl1 ← apply_entry fuel remove ace acl
    acl2 ← if recalc_mask then call (lib.acl_calc_mask acl1) else pure acl1
    call (lib.acl_valid acl2)
    call (lib.acl_set_file file type acl2)
    pure acl2

  -- The loop over the entries of `aclist`.
  unfoldable pub update_rounds :
      ℕ → List ℕ → AclType → Bool → Bool → List AccessControlEntry → lib.Acl → Run lib.Acl
  update_rounds fuel file type remove recalc_mask [] acl = pure acl
  update_rounds fuel file type remove recalc_mask (ace ∷ aces) acl =
      update_round fuel file type remove recalc_mask ace acl
      >>= update_rounds fuel file type remove recalc_mask aces

  -- updateACL()
  unfoldable pub update_acl : ℕ → List ℕ → Bool → List AccessControlEntry → Bool → Bool → Run ⊤
  update_acl fuel file use_default_acl aclist remove recalc_mask = do
    let type = if use_default_acl then type_default else type_access
    acl ← call (lib.acl_get_file file type)
    acl' ← update_rounds fuel file type remove recalc_mask aclist acl
    call (lib.acl_free acl')

  -- main()'s loop over the files.
  unfoldable pub update_files :
      ℕ → Operation → Bool → List AccessControlEntry → Bool → List (List ℕ) → Run ⊤
  update_files fuel op use_default_acl aclist recalc_mask [] = exit_success
  update_files fuel remove_default_acl use_default_acl aclist recalc_mask (file ∷ files) =
      call (lib.acl_delete_def_file file)
      >> update_files fuel remove_default_acl use_default_acl aclist recalc_mask files
  update_files fuel modify_entries use_default_acl aclist recalc_mask (file ∷ files) =
      update_acl fuel file use_default_acl aclist false recalc_mask
      >> update_files fuel modify_entries use_default_acl aclist recalc_mask files
  update_files fuel remove_entries use_default_acl aclist recalc_mask (file ∷ files) =
      update_acl fuel file use_default_acl aclist true recalc_mask
      >> update_files fuel remove_entries use_default_acl aclist recalc_mask files
  update_files fuel _ use_default_acl aclist recalc_mask (file ∷ files) = err_exit
