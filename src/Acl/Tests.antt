-- ===== src/Acl/Tests.antt =====
-- An update of two entries, and a small libacl over files that have one list with one entry.
use computer_science_notes.Base.{
  ℕ, ◌+◌, ◌≡◌, true, false, none, some, [], ◌∷◌, length, if◌then◌else◌,
}
use computer_science_notes.Acl.Parse.{acl_user, Names}
use computer_science_notes.Acl.Calls.{Libacl}
use computer_science_notes.Acl.Specs.{
  Spec, letter_read, letter_write, letter_execute, dash, user_named, mask,
}
use computer_science_notes.Acl.Defined.{is_defined}
use computer_science_notes.Acl.Safe.{update_main-IsDefined}
use computer_science_notes.Acl.Main.{modify, no_recalculation, update_main}

-- User names are known by their length, and no group is.
abbrev by_length : Names
by_length = record {
  user_id_from_name = λ name. some (length name);
  group_id_from_name = λ name. none;
}

abbrev for_user : Spec
for_user = record {
  long = false;
  subject = user_named (98 ∷ 111 ∷ []);
  perms = some (record { first = letter_read; more = [] });
}

abbrev for_mask : Spec
for_mask = record {
  long = true;
  subject = mask;
  perms = some (record { first = dash; more = letter_execute ∷ letter_write ∷ dash ∷ [] });
}

-- The world counts the changes.
abbrev one_entry : Libacl
one_entry = record {
  World = ℕ;
  Acl = ℕ;
  Entry = ℕ;
  Qualifier = ℕ;
  Permset = ℕ;
  acl_get_file = λ file type w. (some 0, w);
  acl_set_file = λ file type acl w. (some tt, w + 1);
  acl_delete_def_file = λ file w. (none, w);
  acl_get_entry = λ acl first w. (some (if first then some 0 else none), w);
  acl_get_tag_type = λ entry w. (some acl_user, w);
  acl_get_qualifier = λ entry w. (some 2, w);
  id_at = λ q w. q;
  acl_free_qualifier = λ q w. (some tt, w);
  acl_free = λ acl w. (some tt, w);
  acl_get_permset = λ entry w. (some 0, w);
  acl_clear_perms = λ permset w. (some tt, w);
  acl_add_perm = λ permset p w. (some tt, w);
  acl_set_permset = λ entry permset w. (some tt, w + 1);
  acl_delete_entry = λ acl entry w. (some tt, w + 1);
  acl_create_entry = λ acl w. (some (acl, 1), w + 1);
  acl_calc_mask = λ acl w. (some acl, w + 1);
  acl_set_tag_type = λ entry tag w. (some tt, w + 1);
  acl_set_qualifier = λ entry qual w. (some tt, w + 1);
  acl_valid = λ acl w. (some tt, w);
}

update_main-IsDefined_example :
    is_defined (
      update_main one_entry by_length 4
        (modify (117 ∷ 58 ∷ 98 ∷ 111 ∷ 58 ∷ 114 ∷ []) ∷ no_recalculation ∷ [])
        ((102 ∷ []) ∷ [])
        0)
    ≡ true
update_main-IsDefined_example =
    update_main-IsDefined one_entry 4 by_length
      (modify (117 ∷ 58 ∷ 98 ∷ 111 ∷ 58 ∷ 114 ∷ []) ∷ no_recalculation ∷ []) ((102 ∷ []) ∷ []) 0
