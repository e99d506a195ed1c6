-- ===== src/Dtree/Invariant/Checks.antt =====
-- The functions of inotify_dtree.c that look into the cache keep its invariant.
use computer_science_notes.Base.{
  ℕ, zero, suc, ◌+◌, ◌≤◌, ◌≡◌, refl, inl, inr, true, false, Option, none, some, List, [], ◌∷◌,
  length, get_elem?, set, arith, Bool-cases, Option-cases, ◌==◌,
}
use computer_science_notes.Base.{find_index-eq-some, length-set}
use computer_science_notes.Base.Int.{ℤ}
use computer_science_notes.Dtree.Paths.{FilePath}
use computer_science_notes.Dtree.Kernel.{Kernel, Stat}
use computer_science_notes.Dtree.State.{Watch, Cache, Globals, aborted, pure}
use computer_science_notes.Dtree.Cache.{is_used, find_watch}
use computer_science_notes.Dtree.Slots.{
  mark_empty, find_watch_checked, path_at, check_cache_consistency, check_slots, dump_cache_to_log,
  create_stop_file_and_abort,
}
use computer_science_notes.Dtree.Roots.{same_path, find_root_dir_path, zap_root_dir_path}
use computer_science_notes.Dtree.Invariant.Rules.{
  Post, Post-bind, Keeps, KeepsSound, IsWatching, IsSound, nulls, Keeps-bind,
}
use computer_science_notes.Dtree.Invariant.Slots.{mark_cache_slot_empty-IsCache}

nulls-set :
    (roots : List (Option FilePath)) (j : ℕ) (path : FilePath)
    → get_elem? roots j ≡ some (some path)
    → nulls (set roots j none) ≡ suc (nulls roots)
nulls-set [] j path h = ground arith
nulls-set (none ∷ rs) zero path h = ground arith
nulls-set (some r ∷ rs) zero path h = refl
nulls-set (none ∷ rs) (suc j) path h = ground (arith, nulls-set rs j path h)
nulls-set (some r ∷ rs) (suc j) path h = nulls-set rs j path h

nulls-le-length : (roots : List (Option FilePath)) → nulls roots ≤ length roots
nulls-le-length [] = omega arith
nulls-le-length (none ∷ rs) = omega (arith, nulls-le-length rs)
nulls-le-length (some r ∷ rs) = omega (arith, nulls-le-length rs)

find_root_dir_path-eq-some :
    (path : FilePath) (roots : List (Option FilePath)) (j : ℕ)
    → find_root_dir_path path roots ≡ some j
    → (r : FilePath) × (get_elem? roots j ≡ some (some r))
unfolding find_root_dir_path
find_root_dir_path-eq-some path roots j h = go (find_index-eq-some (same_path path) roots j h)
  where
    go :
        (x : Option FilePath) × (get_elem? roots j ≡ some x) × (same_path path x ≡ true)
        → (r : FilePath) × (get_elem? roots j ≡ some (some r))
    go (none, e, t) = absurd (cc)
    go (some r, e, t) = (r, e)

zapped_IsWatching :
    (roots : List (Option FilePath)) (ignored j : ℕ) (r : FilePath)
    → get_elem? roots j ≡ some (some r)
    → IsWatching roots ignored
    → (ignored + 1 == length (set roots j none)) ≡ false
    → IsWatching (set roots j none) (ignored + 1)
zapped_IsWatching roots ignored j r e h more =
    ground (arith, nulls-set roots j r e, length-set roots j none)

module _ {k : Kernel} where
  -- A root that is zapped is counted, and the process ends with the last one.
  pub zap_root_dir_path-Keeps : (path : FilePath) → KeepsSound k (zap_root_dir_path path)
  unfolding zap_root_dir_path
  zap_root_dir_path-Keeps path s h =
      elim (Option-cases (find_root_dir_path path s.root_dir_paths)) [
        | inl e ↦ rw (e, Post) tt
        | inr (j, e) ↦
            let (r, at_j) = find_root_dir_path-eq-some path s.root_dir_paths j e in
            elim (Bool-cases (s.ignore_root_dirs + 1 == length (set s.root_dir_paths j none))) [
              | inl last ↦ rw (e, Post, last) tt
              | inr more ↦
                  rw (e, Post, more)
                    (h.0, zapped_IsWatching s.root_dir_paths s.ignore_root_dirs j r at_j h.1 more)
            ]
      ]

  pub path_at-Keeps : (slot : Option ℕ) → KeepsSound k (path_at slot)
  unfolding path_at
  path_at-Keeps slot s h = ground arith

  pub mark_empty-Keeps : (slot : Option ℕ) → KeepsSound k (mark_empty slot)
  unfolding mark_empty
  mark_empty-Keeps none s h = tt
  mark_empty-Keeps (some j) s h = (mark_cache_slot_empty-IsCache j s.cache h.0, h.1)

  pub dump_cache_to_log-Keeps : KeepsSound k dump_cache_to_log
  unfolding dump_cache_to_log
  dump_cache_to_log-Keeps s h = elim (Bool-cases s.has_log) [
    | inl e ↦ rw (e, Post) h
    | inr e ↦ rw (e, Post) tt
  ]

  create_stop_file_and_abort-Keeps :
      (A : Type 0) → KeepsSound k (create_stop_file_and_abort {A = A})
  unfolding create_stop_file_and_abort
  create_stop_file_and_abort-Keeps A =
      Keeps-bind IsSound dump_cache_to_log (λ _ s. aborted) dump_cache_to_log-Keeps (λ _ s h. tt)

  pub find_watch_checked-Keeps : (wd : ℤ) → KeepsSound k (find_watch_checked wd)
  unfolding find_watch_checked
  find_watch_checked-Keeps wd s h = elim (Option-cases (find_watch wd s.cache)) [
    | inr (j, e) ↦ rw (e, Post) h
    | inl e ↦ elim (Bool-cases s.abort_on_cache_problem) [
      | inl strict ↦ rw (e, Post, strict) (create_stop_file_and_abort-Keeps (Option ℕ) _ h)
      | inr lax ↦ rw (e, Post, lax) h
    ]
  ]

  -- The check of the cache changes nothing, whatever is asked of the state.
  check_used-Keeps :
      (I : Globals k → Type 0) (sb : Option Stat) (n : ℕ) (w : Watch) (c : Cache)
      → is_used w ≡ true
      → ((sb' : Option Stat) (n' : ℕ) → Keeps I (check_slots sb' n' c))
      → Keeps I (check_slots sb n (w ∷ c))
  unfolding check_slots
  check_used-Keeps I sb n w c used ih s h = elim (Option-cases (k.lstat s.world w.path)) [
    | inl e ↦ rw (used, Post, e) (ih sb (n + 1) s h)
    | inr (st, e) ↦ rw (used, Post, e) (ih (some st) n s h)
  ]

  check_free-Keeps :
      (I : Globals k → Type 0) (sb : Option Stat) (n : ℕ) (w : Watch) (c : Cache)
      → is_used w ≡ false
      → ((sb' : Option Stat) (n' : ℕ) → Keeps I (check_slots sb' n' c))
      → Keeps I (check_slots sb n (w ∷ c))
  unfolding check_slots
  check_free-Keeps I none n w c free ih s h = rw (free, Post) tt
  check_free-Keeps I (some st) n w c free ih s h = elim (Bool-cases st.is_dir) [
    | inl dir ↦ rw (free, Post, dir) (ih (some st) n s h)
    | inr file ↦ rw (free, Post, file) tt
  ]

  pub check_slots-Keeps :
      (I : Globals k → Type 0) (sb : Option Stat) (n : ℕ) (c : Cache) → Keeps I (check_slots sb n c)
  unfolding check_slots
  check_slots-Keeps I sb n [] s h = h
  check_slots-Keeps I sb n (w ∷ c) s h = elim (Bool-cases (is_used w)) [
    | inl used ↦ check_used-Keeps I sb n w c used (λ sb' n'. check_slots-Keeps I sb' n' c) s h
    | inr free ↦ check_free-Keeps I sb n w c free (λ sb' n'. check_slots-Keeps I sb' n' c) s h
  ]

  pub check_cache_consistency-Keeps : KeepsSound k check_cache_consistency
  unfolding check_cache_consistency
  check_cache_consistency-Keeps s h =
      Post-bind (λ _. IsSound) (λ _. IsSound) (check_slots none 0 s.cache) (λ _. pure tt) s
        (check_slots-Keeps IsSound none 0 s.cache s h) (λ _ t p. p)
