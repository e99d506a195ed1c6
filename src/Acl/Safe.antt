-- ===== src/Acl/Safe.antt =====
-- acl/acl_update.c, from a round of updateACL() to main(): nothing is read that was never stored.
use computer_science_notes.Base.{
  ℕ, ◌≡◌, refl, Bool, true, false, not, ◌&&◌, ◌||◌, ◌==◌, Option-cases, inl, inr, Option, none,
  some, List, [], ◌∷◌, if◌then◌else◌, arith,
}
use computer_science_notes.Acl.Parse.{AccessControlEntry, Names, parse_acl}
use computer_science_notes.Acl.Calls.{
  pure, exit_success, err_exit, AclType, type_access, type_default, Libacl,
}
use computer_science_notes.Acl.Bounds.{is_set, all_set_as, parse_acl-Bounded}
use computer_science_notes.Acl.Defined.{
  is_defined, IsDefined, now, call-IsDefined, bind-IsDefined, then-IsDefined, if-IsDefined,
  find_from-IsDefined, modify_entry-IsDefined, remove_entry-IsDefined,
}
use computer_science_notes.Acl.Update.{
  find_entry, apply_entry, update_round, update_rounds, update_acl, Operation, unspecified_op,
  modify_entries, remove_entries, remove_default_acl, check_valid_acl, is_modify, is_remove,
  update_files,
}
use computer_science_notes.Acl.Main.{
  is_check, Given, Choice, no_choice, choose_all, run_parsed, check_spec, run_choice, update_main,
}

module _ (lib : Libacl) (fuel : ℕ) where
  -- The permissions that a round needs are stored.
  abbrev has_needed : Bool → List AccessControlEntry → Bool
  has_needed remove aces = remove || all_set_as true aces

  apply_entry-IsDefined :
      (remove : Bool) (ace : AccessControlEntry) (acl : lib.Acl)
      → (remove || is_set ace.perms) ≡ true
      → IsDefined (apply_entry lib fuel remove ace acl)
  unfolding apply_entry find_entry
  apply_entry-IsDefined true ace acl h =
      bind-IsDefined _ _ (find_from-IsDefined lib fuel true acl ace.tag ace.qual)
        (λ found. remove_entry-IsDefined lib acl found)
  apply_entry-IsDefined false ace acl h =
      bind-IsDefined _ _ (find_from-IsDefined lib fuel true acl ace.tag ace.qual)
        (λ found. modify_entry-IsDefined lib acl ace found h)

  update_round-IsDefined :
      (file : List ℕ) (type : AclType) (remove recalc_mask : Bool) (ace : AccessControlEntry)
      (acl : lib.Acl)
      → (remove || is_set ace.perms) ≡ true
      → IsDefined (update_round lib fuel file type remove recalc_mask ace acl)
  unfolding update_round
  update_round-IsDefined file type remove recalc_mask ace acl h =
      bind-IsDefined _ _ (apply_entry-IsDefined remove ace acl h) (λ acl1.
        bind-IsDefined _ _
          (if-IsDefined recalc_mask _ _ (call-IsDefined (lib.acl_calc_mask acl1))
            (now (pure acl1) (λ w. refl)))
          (λ acl2. then-IsDefined _ _ (call-IsDefined (lib.acl_valid acl2)) (
            then-IsDefined _ _ (call-IsDefined (lib.acl_set_file file type acl2))
              (now (pure acl2) (λ w. refl)))))

  update_rounds-IsDefined :
      (file : List ℕ) (type : AclType) (remove recalc_mask : Bool) (aces : List AccessControlEntry)
      (acl : lib.Acl)
      → has_needed remove aces ≡ true
      → IsDefined (update_rounds lib fuel file type remove recalc_mask aces acl)
  unfolding update_rounds
  update_rounds-IsDefined file type remove recalc_mask [] acl h = now (pure acl) (λ w. refl)
  update_rounds-IsDefined file type remove recalc_mask (ace ∷ aces) acl h =
      bind-IsDefined _ _
        (update_round-IsDefined file type remove recalc_mask ace acl (ground arith))
        (λ acl'. update_rounds-IsDefined file type remove recalc_mask aces acl' (ground arith))

  update_acl-IsDefined :
      (file : List ℕ) (use_default_acl : Bool) (aces : List AccessControlEntry)
      (remove recalc_mask : Bool)
      → has_needed remove aces ≡ true
      → IsDefined (update_acl lib fuel file use_default_acl aces remove recalc_mask)
  unfolding update_acl
  update_acl-IsDefined file use_default_acl aces remove recalc_mask h =
      let type = if use_default_acl then type_default else type_access in
      bind-IsDefined _ _ (call-IsDefined (lib.acl_get_file file type)) (λ acl.
        bind-IsDefined _ _ (update_rounds-IsDefined file type remove recalc_mask aces acl h)
          (λ acl'. call-IsDefined (lib.acl_free acl')))

  update_files-IsDefined :
      (op : Operation) (use_default_acl : Bool) (aces : List AccessControlEntry)
      (recalc_mask : Bool) (files : List (List ℕ))
      → has_needed (not (is_modify op)) aces ≡ true
      → IsDefined (update_files lib fuel op use_default_acl aces recalc_mask files)
  unfolding update_files
  update_files-IsDefined op use_default_acl aces recalc_mask [] h = now exit_success (λ w. refl)
  update_files-IsDefined remove_default_acl use_default_acl aces recalc_mask (file ∷ files) h =
      then-IsDefined _ _ (call-IsDefined (lib.acl_delete_def_file file))
        (update_files-IsDefined remove_default_acl use_default_acl aces recalc_mask files h)
  update_files-IsDefined modify_entries use_default_acl aces recalc_mask (file ∷ files) h =
      then-IsDefined _ _ (update_acl-IsDefined file use_default_acl aces false recalc_mask h)
        (update_files-IsDefined modify_entries use_default_acl aces recalc_mask files h)
  update_files-IsDefined remove_entries use_default_acl aces recalc_mask (file ∷ files) h =
      then-IsDefined _ _ (update_acl-IsDefined file use_default_acl aces true recalc_mask refl)
        (update_files-IsDefined remove_entries use_default_acl aces recalc_mask files h)
  update_files-IsDefined unspecified_op use_default_acl aces recalc_mask (file ∷ files) h =
      now err_exit (λ w. refl)
  update_files-IsDefined check_valid_acl use_default_acl aces recalc_mask (file ∷ files) h =
      now err_exit (λ w. refl)

  module _ (k : Names) where
    run_parsed-IsDefined :
        (c : Choice) (files : List (List ℕ)) (aces : Option (List AccessControlEntry))
        → ((l : List AccessControlEntry)
            → aces ≡ some l
            → has_needed (not (is_modify c.operation)) l ≡ true)
        → IsDefined (run_parsed lib k fuel c files aces)
    unfolding run_parsed
    run_parsed-IsDefined c files none h = now err_exit (λ w. refl)
    run_parsed-IsDefined c files (some aces) h =
        update_files-IsDefined c.operation c.use_default_acl aces c.recalc_mask files (h aces refl)

    check_spec-IsDefined :
        (aces : Option (List AccessControlEntry)) → IsDefined (check_spec lib k aces)
    unfolding check_spec
    check_spec-IsDefined none = now err_exit (λ w. refl)
    check_spec-IsDefined (some aces) = now exit_success (λ w. refl)

    needs_none :
        (remove : Bool) (aces : List AccessControlEntry)
        → some [] ≡ some aces
        → has_needed remove aces ≡ true
    needs_none true aces e = refl
    needs_none false [] e = refl
    needs_none false (ace ∷ aces) e = absurd (ground arith)

    needed :
        (modifies : Bool) (spec : List ℕ) (aces : List AccessControlEntry)
        → parse_acl k modifies spec ≡ some aces
        → has_needed (not modifies) aces ≡ true
    needed true spec aces e = (parse_acl-Bounded k true spec aces e).2
    needed false spec aces e = refl

    run_choice-IsDefined :
        (c : Choice) (files : List (List ℕ)) → IsDefined (run_choice lib k fuel c files)
    unfolding run_choice
    run_choice-IsDefined c files =
        if-IsDefined (not (c.opt_cnt == 1)) _ _ (now err_exit (λ w. refl)) (
          if-IsDefined (is_check c.operation && c.use_default_acl) _ _ (now err_exit (λ w. refl)) (
            if-IsDefined (is_check c.operation) _ _
              (check_spec-IsDefined (parse_acl k true c.acl_spec))
              (if-IsDefined (is_modify c.operation || is_remove c.operation) _ _
                (run_parsed-IsDefined c files (parse_acl k (is_modify c.operation) c.acl_spec)
                  (λ l e. needed (is_modify c.operation) c.acl_spec l e))
                (run_parsed-IsDefined c files (some [])
                  (needs_none (not (is_modify c.operation)))))))

    -- For all options, files and failures of libacl's calls, in every world and for any number of rounds
    -- of findEntry(): the program never sets permissions that it has not stored.
    pub update_main-IsDefined :
        (options : List Given) (files : List (List ℕ)) (w : lib.World)
        → is_defined (update_main lib k fuel options files w) ≡ true
    unfolding update_main
    update_main-IsDefined options files w = elim (Option-cases (choose_all options no_choice)) [
      | inl e ↦ rw (e, is_defined) refl
      | inr (c, e) ↦ rw (e, is_defined) ((run_choice-IsDefined c files).holds w)
    ]
