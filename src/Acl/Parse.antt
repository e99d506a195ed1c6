-- ===== src/Acl/Parse.antt =====
-- parseEntrySpec() and parseACL() of acl/acl_update.c. userIdFromName() and groupIdFromName() are
-- parameters.
use computer_science_notes.Base.{
  ℕ, zero, suc, Bool, true, false, not, ◌&&◌, ◌||◌, Option, none, some, List, [], ◌∷◌, ◌==◌, ◌>>=◌,
  if◌then◌else◌, same_string, cut_at,
}
use mathlib.Core.Option

-- acl_tag_t
pub data Tag : Type 0 where
  acl_user_obj : Tag
  acl_user : Tag
  acl_group_obj : Tag
  acl_group : Tag
  acl_mask : Tag
  acl_other : Tag

-- The bits ACL_READ, ACL_WRITE and ACL_EXECUTE.
pub record Permissions : Type 0 where
  pub read : Bool
  pub write : Bool
  pub execute : Bool

abbrev pub no_permissions : Permissions
no_permissions = record { read = false; write = false; execute = false }

-- `struct AccessControlEntry`, where perms is `none` if it is left unset.
pub record AccessControlEntry : Type 0 where
  pub tag : Tag
  pub qual : ℕ
  pub perms : Option Permissions

abbrev pub max_entries : ℕ
max_entries = 10000

abbrev pub colon_char : ℕ
colon_char = 58

abbrev pub comma_char : ℕ
comma_char = 44

-- What the program takes from outside, where `none` is the -1.
pub record Names : Type 0 where
  pub user_id_from_name : List ℕ → Option ℕ
  pub group_id_from_name : List ℕ → Option ℕ

-- `*(colon1 + 1) != '\0' && *(colon1 + 1) != ':'`
unfoldable pub has_qual : List ℕ → Bool
has_qual [] = false
has_qual (c ∷ _) = not (c == colon_char)

-- `colon2 != NULL && *(colon2 + 1) != '\0'`
unfoldable pub has_perms : Option (List ℕ) → Bool
has_perms none = false
has_perms (some []) = false
has_perms (some (_ ∷ _)) = true

-- The ladder of tests on the tag string: "u" or "user", "g" or "group", "o" or "other", "m" or "mask".
unfoldable pub tag_of : List ℕ → Bool → Option Tag
tag_of text qualified =
    if same_string text (117 ∷ []) || same_string text (117 ∷ 115 ∷ 101 ∷ 114 ∷ [])
    then some (if qualified then acl_user else acl_user_obj)
    else if same_string text (103 ∷ []) || same_string text (103 ∷ 114 ∷ 111 ∷ 117 ∷ 112 ∷ [])
    then some (if qualified then acl_group else acl_group_obj)
    else if same_string text (111 ∷ []) || same_string text (111 ∷ 116 ∷ 104 ∷ 101 ∷ 114 ∷ [])
    then some acl_other
    else if same_string text (109 ∷ []) || same_string text (109 ∷ 97 ∷ 115 ∷ 107 ∷ [])
    then some acl_mask
    else none

-- The body of the loop over the permissions string.
unfoldable pub add_permission : ℕ → Permissions → Option Permissions
add_permission c p =
    if c == 114
    then some (record p { read = true })
    else if c == 119
    then some (record p { write = true })
    else if c == 120
    then some (record p { execute = true })
    else if c == 45
    then some p
    else none

-- That loop.
unfoldable pub add_permissions : List ℕ → Permissions → Option Permissions
add_permissions [] p = some p
add_permissions (c ∷ cs) p = add_permission c p >>= add_permissions cs

-- `if (hasPerms)`
unfoldable pub permissions_of : Option (List ℕ) → Option (Option Permissions)
permissions_of none = some none
permissions_of (some []) = some none
permissions_of (some (c ∷ cs)) = Option.map some (add_permissions (c ∷ cs) no_permissions)

module _ (k : Names) where
  -- The qualifier, of those tags that have one.
  unfoldable pub qualifier : Tag → List ℕ → Option ℕ
  qualifier acl_user text = k.user_id_from_name text
  qualifier acl_group text = k.group_id_from_name text
  qualifier _ text = some 0

  -- parseEntrySpec() behind the guards: the tag string, whether there is a qualifier, the text of it,
  -- and what follows the second colon.
  unfoldable pub parse_fields : List ℕ → Bool → List ℕ → Option (List ℕ) → Option AccessControlEntry
  parse_fields text qualified qual_text tail = do
    tag ← tag_of text qualified
    qual ← qualifier tag qual_text
    perms ← permissions_of tail
    some (record { tag = tag; qual = qual; perms = perms })

  -- parseEntrySpec() behind the first colon.
  unfoldable pub parse_rest : Bool → List ℕ → Option (List ℕ) → Option AccessControlEntry
  parse_rest perms_reqd text none = none
  parse_rest perms_reqd text (some rest) =
      let (qual_text, tail) = cut_at colon_char rest in
      if has_perms tail && not perms_reqd
      then none
      else if not (has_perms tail) && perms_reqd
      then none
      else parse_fields text (has_qual rest) qual_text tail

  -- parseEntrySpec()
  unfoldable pub parse_entry_spec : Bool → List ℕ → Option AccessControlEntry
  parse_entry_spec perms_reqd entry_str =
      let (text, rest) = cut_at colon_char entry_str in parse_rest perms_reqd text rest

  -- parseACL()'s loop behind an entry, where `again` is the next round.
  unfoldable pub next_entry :
      (List ℕ → Option (List AccessControlEntry))
      → Option (List ℕ)
      → AccessControlEntry
      → Option (List AccessControlEntry)
  next_entry again none ace = some (ace ∷ [])
  next_entry again (some text) ace = Option.map (λ aces. ace ∷ aces) (again text)

  -- The loop, with the room that is left in `aclist`.
  unfoldable pub parse_entries : Bool → ℕ → List ℕ → Option (List AccessControlEntry)
  parse_entries perms_reqd zero acl_str = none
  parse_entries perms_reqd (suc room) acl_str =
      let (entry, rest) = cut_at comma_char acl_str in
      parse_entry_spec perms_reqd entry >>= next_entry (parse_entries perms_reqd room) rest

  -- parseACL(): the entries in `aclist`, or `none` for -1.
  unfoldable pub parse_acl : Bool → List ℕ → Option (List AccessControlEntry)
  parse_acl perms_reqd acl_str = parse_entries perms_reqd max_entries acl_str
