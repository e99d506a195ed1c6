-- ===== src/Acl/Bounds.antt =====
-- What parseACL() of acl/acl_update.c leaves in its array.
use computer_science_notes.Base.{
  ℕ, zero, suc, ◌≤◌, ◌≡◌, refl, Bool, true, false, not, ◌&&◌, Option, none, some, List, [], ◌∷◌,
  length, >>=-cases, ◌<◌, if◌then◌else◌, cut_at, arith,
}
use mathlib.Core.Option
use computer_science_notes.Acl.Parse.{
  Permissions, no_permissions, AccessControlEntry, max_entries, colon_char, comma_char, Names,
  has_qual, has_perms, tag_of, add_permissions, permissions_of, qualifier, parse_fields, parse_rest,
  parse_entry_spec, next_entry, parse_entries, parse_acl,
}

abbrev pub is_set : Option Permissions → Bool
is_set none = false
is_set (some _) = true

-- Whether each entry has permissions exactly if these are asked for.
abbrev pub all_set_as : Bool → List AccessControlEntry → Bool
all_set_as perms_reqd [] = true
all_set_as perms_reqd (ace ∷ aces) =
    (if perms_reqd then is_set ace.perms else not (is_set ace.perms)) && all_set_as perms_reqd aces

is_set-permissions_of :
    (tail : Option (List ℕ)) (p : Option Permissions)
    → permissions_of tail ≡ some p
    → is_set p ≡ has_perms tail
unfolding permissions_of has_perms
is_set-permissions_of none p h = ground arith
is_set-permissions_of (some []) p h = ground arith
is_set-permissions_of (some (c ∷ cs)) p h = given (add_permissions (c ∷ cs) no_permissions) p h
  where
    given :
        (o : Option Permissions) (p' : Option Permissions)
        → Option.map some o ≡ some p'
        → is_set p' ≡ true
    given none p' e = absurd (ground arith)
    given (some q) none e = absurd (ground arith)
    given (some q) (some p') e = refl

behind :
    (perms_reqd : Bool) (ace : AccessControlEntry) (aces : List AccessControlEntry) (room : ℕ)
    (o : Option (List AccessControlEntry))
    → ((l : List AccessControlEntry)
        → o ≡ some l
        → (length l ≤ room) × (all_set_as perms_reqd l ≡ true))
    → Option.map (λ l. ace ∷ l) o ≡ some aces
    → is_set ace.perms ≡ perms_reqd
    → (0 < length aces) × (length aces ≤ suc room) × (all_set_as perms_reqd aces ≡ true)
behind perms_reqd ace aces room none good h e = absurd (ground arith)
behind perms_reqd ace [] room (some l) good h e = absurd (ground arith)
behind perms_reqd ace (a ∷ l') room (some l) good h e = grind (arith, good l refl)

module _ (k : Names) where
  is_set-parse_fields :
      (text : List ℕ) (qualified : Bool) (qual_text : List ℕ) (tail : Option (List ℕ))
      (ace : AccessControlEntry)
      → parse_fields k text qualified qual_text tail ≡ some ace
      → is_set ace.perms ≡ has_perms tail
  unfolding parse_fields
  is_set-parse_fields text qualified qual_text tail ace h =
      let (tag, _, h1) = >>=-cases (tag_of text qualified) _ ace h in
      let (qual, _, h2) = >>=-cases (qualifier k tag qual_text) _ ace h1 in
      let (perms, e, h3) = >>=-cases (permissions_of tail) _ ace h2 in
      ground (arith, is_set-permissions_of tail perms e, h3)

  is_set-parse_rest :
      (perms_reqd : Bool) (text : List ℕ) (rest : Option (List ℕ)) (ace : AccessControlEntry)
      → parse_rest k perms_reqd text rest ≡ some ace
      → is_set ace.perms ≡ perms_reqd
  unfolding parse_rest
  is_set-parse_rest perms_reqd text none ace h = absurd (ground arith)
  is_set-parse_rest perms_reqd text (some rest) ace h =
      let parts = cut_at colon_char rest in
      grind (arith, is_set-parse_fields text (has_qual rest) parts.0 parts.1 ace)

  is_set-next_entry :
      (perms_reqd : Bool) (again : List ℕ → Option (List AccessControlEntry))
      (rest : Option (List ℕ)) (ace : AccessControlEntry) (aces : List AccessControlEntry)
      (room : ℕ)
      → ((text : List ℕ) (l : List AccessControlEntry)
          → again text ≡ some l
          → (length l ≤ room) × (all_set_as perms_reqd l ≡ true))
      → next_entry k again rest ace ≡ some aces
      → is_set ace.perms ≡ perms_reqd
      → (0 < length aces) × (length aces ≤ suc room) × (all_set_as perms_reqd aces ≡ true)
  unfolding next_entry
  is_set-next_entry perms_reqd again none ace [] room good h e = absurd (ground arith)
  is_set-next_entry perms_reqd again none ace (a ∷ l) room good h e = grind arith
  is_set-next_entry perms_reqd again (some text) ace aces room good h e =
      behind perms_reqd ace aces room (again text) (good text) h e

  parse_entries-Bounded :
      (perms_reqd : Bool) (room : ℕ) (acl_str : List ℕ) (aces : List AccessControlEntry)
      → parse_entries k perms_reqd room acl_str ≡ some aces
      → (0 < length aces) × (length aces ≤ room) × (all_set_as perms_reqd aces ≡ true)
  unfolding parse_entries parse_entry_spec
  parse_entries-Bounded perms_reqd zero acl_str aces h = absurd (ground arith)
  parse_entries-Bounded perms_reqd (suc room) acl_str aces h =
      let (entry, rest) = cut_at comma_char acl_str in
      let (text, tail) = cut_at colon_char entry in
      let (ace, e, g) =
        >>=-cases (parse_entry_spec k perms_reqd entry)
          (next_entry k (parse_entries k perms_reqd room) rest) aces h in
      is_set-next_entry perms_reqd (parse_entries k perms_reqd room) rest ace aces room
        (λ t l q. let below = parse_entries-Bounded perms_reqd room t l q in (below.1, below.2)) g
        (is_set-parse_rest perms_reqd text tail ace e)

  -- For every text on which parseACL() does not fail: it stores at least one entry and at most
  -- MAX_ENTRIES, so nothing behind `aclist`; and each entry has its permissions set if these are asked
  -- for, and left unset if not, so updateACL() does not read what was never stored.
  pub parse_acl-Bounded :
      (perms_reqd : Bool) (acl_str : List ℕ) (aces : List AccessControlEntry)
      → parse_acl k perms_reqd acl_str ≡ some aces
      → (0 < length aces) × (length aces ≤ max_entries) × (all_set_as perms_reqd aces ≡ true)
  unfolding parse_acl
  parse_acl-Bounded perms_reqd acl_str aces h =
      parse_entries-Bounded perms_reqd max_entries acl_str aces h
