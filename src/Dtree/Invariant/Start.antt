-- ===== src/Dtree/Invariant/Start.antt =====
-- What main() does before its loop establishes the invariant.
use computer_science_notes.Dtree.Roots.{make_arrays}
use computer_science_notes.Dtree.Roots.{copy_roots}
use computer_science_notes.Dtree.Roots.{store_root}
use computer_science_notes.Base.{
  ℕ, suc, ◌+◌, ◌≤◌, ◌<◌, ◌≡◌, refl, inl, inr, Option, none, some, List, [], ◌∷◌, ◌++◌, length,
  arith, Bool-cases, length-append,
}
use computer_science_notes.Base.Int.{minus_one}
use computer_science_notes.Dtree.Paths.{FilePath}
use computer_science_notes.Dtree.Kernel.{Kernel, Stat}
use computer_science_notes.Dtree.State.{Cache, Globals, ◌>>◌, for_each}
use computer_science_notes.Dtree.Roots.{check_root, copy_root, copy_root_dir_paths, is_duplicate}
use computer_science_notes.Dtree.Subtree.{reinitialize}
use computer_science_notes.Dtree.Main
use computer_science_notes.Dtree.Main.{Flag}
use computer_science_notes.Dtree.Invariant.Rules.{
  Post, Post-bind, Holds, Keeps, IsCache, IsSound, nulls, Keeps-bind, Keeps-for_each,
}
use computer_science_notes.Dtree.Invariant.Calls.{reinitialize-Keeps}
use computer_science_notes.Dtree.Invariant.Loop.{serve_rounds-Keeps}

-- As many roots as have been copied, none of them zapped, over an empty cache.
abbrev Copied : {k : Kernel} → ℕ → Globals k → Type 0
Copied n g = (g.cache ≡ []) × (nulls g.root_dir_paths ≡ 0) × (length g.root_dir_paths ≡ n)

nulls-append : (xs ys : List (Option FilePath)) → nulls (xs ++ ys) ≡ nulls xs + nulls ys
nulls-append [] ys = omega arith
nulls-append (none ∷ xs) ys = omega (arith, nulls-append xs ys)
nulls-append (some r ∷ xs) ys = omega (arith, nulls-append xs ys)

IsCache-empty : (c : Cache) → c ≡ [] → IsCache c
IsCache-empty c e = rw e (record { slots = tt; unique = λ n. omega arith })

module _ {k : Kernel} where
  abbrev EmptyCache : Globals k → Type 0
  EmptyCache g = g.cache ≡ []

  check_root-Keeps : (path : FilePath) → Keeps EmptyCache (check_root path)
  unfolding check_root
  check_root-Keeps path s h = ground arith

  apply_option-Keeps : (f : Flag) → Keeps EmptyCache (Main.apply_option {k = k} f)
  unfolding Main.apply_option
  apply_option-Keeps (Main.abort_on_problem a) s h = h
  apply_option-Keeps Main.check s h = h
  apply_option-Keeps Main.dump s h = h
  apply_option-Keeps (Main.verbose a) s h = h
  apply_option-Keeps (Main.buffer_size a) s h = h
  apply_option-Keeps (Main.log_file a) s h = elim (Bool-cases (k.fopen s.world a).0) [
    | inl e ↦ rw (e, Post) h
    | inr e ↦ rw (e, Post) tt
  ]
  apply_option-Keeps Main.bad s h = tt

  store_root_lem :
      (n : ℕ) (path : FilePath) (r : Option Stat) (s : Globals k)
      → Copied n s
      → Holds (Copied (suc n)) (store_root path r s)
  unfolding store_root
  store_root_lem n path none s h = tt
  store_root_lem n path (some st) s h = elim (Bool-cases (is_duplicate st s.root_dir_stat)) [
    | inl e ↦ rw (e, Post) tt
    | inr e ↦
        rw (e, Post)
          (
            h.0,
            omega (arith, nulls-append s.root_dir_paths (some path ∷ []), h.1),
            omega (arith, length-append s.root_dir_paths (some path ∷ []), h.2),
          )
  ]

  copy_root_lem :
      (n : ℕ) (path : FilePath) (s : Globals k)
      → Copied n s
      → Holds (Copied (suc n)) (copy_root path s)
  unfolding copy_root
  copy_root_lem n path s h = elim (Bool-cases (k.alloc s.world (length path + 1)).0) [
    | inl e ↦ rw (e, Post) (store_root_lem n path _ _ h)
    | inr e ↦ rw (e, Post) tt
  ]

  copy_roots_lem :
      (n m : ℕ) (paths : List FilePath) (s : Globals k)
      → n + length paths ≡ m
      → Copied n s
      → Holds (Copied m) (for_each copy_root paths s)
  copy_roots_lem n m [] s e h = (h.0, h.1, omega (arith, h.2))
  copy_roots_lem n m (p ∷ ps) s e h =
      Post-bind (λ _. Copied (suc n)) (λ _. Copied m) (copy_root p) (λ _. for_each copy_root ps) s
        (copy_root_lem n p s h) (λ _ t q. copy_roots_lem (suc n) m ps t (omega arith) q)

  make_arrays-Keeps : (dirs : List FilePath) → Keeps EmptyCache (make_arrays {k = k} dirs)
  unfolding make_arrays
  make_arrays-Keeps dirs s h = elim (Bool-cases (k.alloc s.world (length dirs)).0) [
    | inr e ↦ rw (e, Post) tt
    | inl e ↦ elim (Bool-cases (k.alloc (k.alloc s.world (length dirs)).1 (length dirs)).0) [
      | inr e' ↦ rw (e, e', Post) tt
      | inl e' ↦ rw (e, e', Post) h
    ]
  ]

  copy_roots-IsSound :
      (dirs : List FilePath) (s : Globals k)
      → 0 < length dirs
      → s.cache ≡ []
      → Holds IsSound (copy_roots dirs s)
  unfolding copy_roots
  copy_roots-IsSound dirs s some_dir h =
      let t : Globals k = record s { root_dir_paths = []; root_dir_stat = [] } in
      Post-bind (λ _. Copied (length dirs)) (λ _. IsSound) (for_each copy_root dirs) _ t
        (copy_roots_lem 0 (length dirs) dirs t (omega arith) (h, refl, refl))
        (λ _ u q.
          (IsCache-empty u.cache q.0, record { counted = q.1; some_left = omega (arith, q.2) }))

  -- With at least one directory named, all of them are watched when the copies have been made.
  copy_root_dir_paths_lem :
      (dirs : List FilePath) (s : Globals k)
      → 0 < length dirs
      → s.cache ≡ []
      → Holds IsSound (copy_root_dir_paths dirs s)
  unfolding copy_root_dir_paths
  copy_root_dir_paths_lem dirs s some_dir h =
      Post-bind (λ _. EmptyCache) (λ _. IsSound) (for_each check_root dirs >> make_arrays dirs)
        (λ _. copy_roots dirs) s
        (Keeps-bind EmptyCache (for_each check_root dirs) (λ _. make_arrays dirs)
          (Keeps-for_each EmptyCache check_root dirs check_root-Keeps) (λ _. make_arrays-Keeps dirs)
          s h)
        (λ _ t q. copy_roots-IsSound dirs t some_dir q)

  build_lem :
      (dirs : List FilePath) (s : Globals k) → s.cache ≡ [] → Holds IsSound (Main.build dirs s)
  unfolding Main.build
  build_lem [] s h = tt
  build_lem (d ∷ ds) s h =
      Post-bind (λ _. IsSound) (λ _. IsSound) (copy_root_dir_paths (d ∷ ds)) _ s
        (copy_root_dir_paths_lem (d ∷ ds) s (omega arith) h)
        (λ _ t q.
          Keeps-bind IsSound (reinitialize minus_one) _ (reinitialize-Keeps minus_one) (λ _ u p. p)
            t q)

  set_up_lem :
      (flags : List Flag) (dirs : List FilePath) (s : Globals k)
      → s.cache ≡ []
      → Holds IsSound (Main.set_up flags dirs s)
  unfolding Main.set_up
  set_up_lem flags dirs s h =
      Post-bind (λ _. EmptyCache) (λ _. IsSound) (for_each Main.apply_option flags)
        (λ _. Main.build dirs) s
        (Keeps-for_each EmptyCache Main.apply_option flags apply_option-Keeps s h)
        (λ _ t q. build_lem dirs t q)

-- Whatever the options, the directories, the events, the commands and the kernel do, with PATH_MAX
-- at least 2 every round of main()'s loop that is reached, without an undefined read or write before
-- it, leaves the cache with well-formed slots and no watch descriptor in two of them, and the count of
-- the zapped roots right and below their number.
pub main_loop_IsSound :
    (k : Kernel)
    → 2 ≤ k.path_max
    → (flags : List Flag) (dirs : List FilePath) (n fuel : ℕ) (w : k.World)
    → Holds IsSound ((Main.set_up {k = k} flags dirs >> Main.serve_rounds n fuel) (Main.initial w))
main_loop_IsSound k roomy flags dirs n fuel w =
    Post-bind (λ _. IsSound) (λ _. IsSound) (Main.set_up flags dirs) (λ _. Main.serve_rounds n fuel)
      (Main.initial w) (set_up_lem flags dirs (Main.initial w) refl)
      (λ _ t q. serve_rounds-Keeps roomy n fuel t q)
