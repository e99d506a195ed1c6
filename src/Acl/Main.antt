-- ===== src/Acl/Main.antt =====
-- main() of acl/acl_update.c: the options, and what is run for them.
use computer_science_notes.Acl.Update.{
  Run, Operation, unspecified_op, modify_entries, remove_entries, remove_default_acl,
  check_valid_acl, is_modify, is_remove, update_files,
}
use computer_science_notes.Base.{
  ℕ, ◌+◌, Bool, true, false, not, ◌&&◌, ◌||◌, Option, none, some, List, [], ◌∷◌, ◌==◌,
  if◌then◌else◌,
}
use computer_science_notes.Acl.Parse.{AccessControlEntry, Names, parse_acl}
use computer_science_notes.Acl.Calls.{⊤, exit_success, err_exit, Libacl}

-- What getopt() gives: -m, -x and -V with their argument, -k, -d, -n, or another option.
pub data Given : Type 0 where
  modify : List ℕ → Given
  remove : List ℕ → Given
  remove_default : Given
  check_valid : List ℕ → Given
  on_default : Given
  no_recalculation : Given
  bad_option : Given

-- The variables of main().
pub record Choice : Type 0 where
  pub operation : Operation
  pub recalc_mask : Bool
  pub use_default_acl : Bool
  pub opt_cnt : ℕ
  pub acl_spec : List ℕ

abbrev pub no_choice : Choice
no_choice = record {
  operation = unspecified_op;
  recalc_mask = true;
  use_default_acl = false;
  opt_cnt = 0;
  acl_spec = [];
}

-- The switch: `none` is usageError().
unfoldable pub choose : Given → Choice → Option Choice
choose (modify spec) c =
    some (record c { operation = modify_entries; acl_spec = spec; opt_cnt = c.opt_cnt + 1 })
choose (remove spec) c =
    some (record c { operation = remove_entries; acl_spec = spec; opt_cnt = c.opt_cnt + 1 })
choose remove_default c =
    some (record c { operation = remove_default_acl; opt_cnt = c.opt_cnt + 1 })
choose (check_valid spec) c =
    some (record c { operation = check_valid_acl; acl_spec = spec; opt_cnt = c.opt_cnt + 1 })
choose on_default c = some (record c { use_default_acl = true })
choose no_recalculation c = some (record c { recalc_mask = false })
choose bad_option c = none

unfoldable pub choose_all : List Given → Choice → Option Choice
choose_all [] c = some c
choose_all (g ∷ gs) c = elim (choose g c) [ none ↦ none | some c' ↦ choose_all gs c' ]

abbrev pub is_check : Operation → Bool
is_check check_valid_acl = true
is_check _ = false

module _ (lib : Libacl) (k : Names) where
  -- main() behind parseACL(), with what it gave.
  unfoldable pub run_parsed :
      ℕ → Choice → List (List ℕ) → Option (List AccessControlEntry) → Run lib ⊤
  run_parsed fuel c files none = err_exit
  run_parsed fuel c files (some aclist) =
      update_files lib fuel c.operation c.use_default_acl aclist c.recalc_mask files

  unfoldable pub check_spec : Option (List AccessControlEntry) → Run lib ⊤
  check_spec none = err_exit
  check_spec (some _) = exit_success

  -- main() behind the options.
  unfoldable pub run_choice : ℕ → Choice → List (List ℕ) → Run lib ⊤
  run_choice fuel c files =
      if not (c.opt_cnt == 1)
      then err_exit
      else if is_check c.operation && c.use_default_acl
      then err_exit
      else if is_check c.operation
      then check_spec (parse_acl k true c.acl_spec)
      else if is_modify c.operation || is_remove c.operation
      then run_parsed fuel c files (parse_acl k (is_modify c.operation) c.acl_spec)
      else run_parsed fuel c files (some [])

  -- main(), with the options and the files.
  unfoldable pub update_main : ℕ → List Given → List (List ℕ) → Run lib ⊤
  update_main fuel options files = elim (choose_all options no_choice) [
    | none ↦ err_exit
    | some c ↦ run_choice fuel c files
  ]
