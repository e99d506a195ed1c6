-- ===== src/Acl/Written.antt =====
-- parseACL() of acl/acl_update.c reads the form that its comments describe.
use computer_science_notes.Base.{ℕ, Bool, Option, none, some, List, [], ◌∷◌, ◌>>=◌, if◌then◌else◌}
use mathlib.Core.Option
use computer_science_notes.Acl.Parse.{
  Tag, acl_user_obj, acl_user, acl_group_obj, acl_group, acl_mask, acl_other, Permissions,
  AccessControlEntry, Names,
}
use computer_science_notes.Acl.Specs.{
  Subject, owner, user_named, owning_group, group_named, mask, others, Spec, granted, fits,
  word_tag,
}

module _ (k : Names) where
  -- The tag and the qualifier that an entry stands for, if its name is known.
  abbrev stands_for : Subject → Option (Tag × ℕ)
  stands_for owner = some (acl_user_obj, 0)
  stands_for (user_named name) = Option.map (λ id. (acl_user, id)) (k.user_id_from_name name)
  stands_for owning_group = some (acl_group_obj, 0)
  stands_for (group_named name) = Option.map (λ id. (acl_group, id)) (k.group_id_from_name name)
  stands_for mask = some (acl_mask, 0)
  stands_for others = some (acl_other, 0)

  -- An entry has a meaning if its name is known, and it has permissions exactly where these are asked
  -- for.
  abbrev meaning : Bool → Spec → Option AccessControlEntry
  meaning perms_reqd e =
      if fits perms_reqd e.perms
      then Option.map (λ s. record { tag = s.0; qual = s.1; perms = Option.map granted e.perms })
          (stands_for e.subject)
      else none

  -- What the entries of a list mean, if each has a meaning.
  abbrev pub meanings : Bool → List Spec → Option (List AccessControlEntry)
  meanings perms_reqd [] = some []
  meanings perms_reqd (e ∷ es) =
      meaning perms_reqd e >>= λ ace. Option.map (λ aces. ace ∷ aces) (meanings perms_reqd es)

  abbrev entry_with : Subject → Option Permissions → ℕ → Option AccessControlEntry
  entry_with s perms qual = some (record { tag = word_tag s; qual = qual; perms = perms })
