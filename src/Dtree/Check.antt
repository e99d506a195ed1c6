-- ===== src/Dtree/Check.antt =====
-- The consistency check and the duplicate test of inotify_dtree.c.
use computer_science_notes.Base.{
  ℕ, ◌+◌, ◌≡◌, refl, inl, inr, true, false, ◌||◌, Option, none, some, List, [], ◌∷◌, ◌++◌, length,
  arith, Bool-cases, Option-cases,
}
use computer_science_notes.Dtree.Paths.{FilePath}
use computer_science_notes.Dtree.Kernel.{Kernel, Stat}
use computer_science_notes.Dtree.State.{Watch, Cache, Globals, done, undefined, for_each, ◌>>=◌}
use computer_science_notes.Dtree.Cache.{is_used}
use computer_science_notes.Dtree.Slots.{check_slots, check_cache_consistency}
use computer_science_notes.Dtree.Roots.{
  same_object, is_duplicate, store_root, copy_root, copy_roots,
}
use computer_science_notes.Dtree.Invariant.Rules.{Post, Post-bind, Keeps, Keeps-for_each}

abbrev pub AllUsed : Cache → Type 0
AllUsed [] = Unit
AllUsed (w ∷ c) = (is_used w ≡ true) × AllUsed c

module _ {k : Kernel} where
  check_slots-AllUsed :
      (sb : Option Stat) (n : ℕ) (c : Cache) (s : Globals k)
      → AllUsed c
      → (m : ℕ) × (check_slots sb n c s ≡ done m s)
  unfolding check_slots
  check_slots-AllUsed sb n [] s h = (n, refl)
  check_slots-AllUsed sb n (w ∷ c) s h = elim (Option-cases (k.lstat s.world w.path)) [
    | inl e ↦ rw (h.0, e, check_slots) (check_slots-AllUsed sb (n + 1) c s h.1)
    | inr (st, e) ↦ rw (h.0, e, check_slots) (check_slots-AllUsed (some st) n c s h.1)
  ]

  -- While every slot is in use, checkCacheConsistency() returns whatever lstat() reports: no cached
  -- pathname that is not a directory is ever noticed.
  pub check_cache_consistency-AllUsed :
      (s : Globals k) → AllUsed s.cache → check_cache_consistency s ≡ done tt s
  unfolding check_cache_consistency
  check_cache_consistency-AllUsed s h =
      let (m, e) = check_slots-AllUsed none 0 s.cache s h in rw (e, ◌>>=◌)

  -- With a free slot at the start of the cache, it reads what was never written.
  pub check_cache_consistency_free :
      (w : Watch) (c : Cache) (s : Globals k)
      → is_used w ≡ false
      → s.cache ≡ w ∷ c
      → check_cache_consistency s ≡ undefined
  unfolding check_cache_consistency check_slots
  check_cache_consistency_free w c s free e = ground arith

-- No file system object twice.
abbrev pub Distinct : List Stat → Type 0
Distinct [] = Unit
Distinct (x ∷ xs) = (is_duplicate x xs ≡ false) × Distinct xs

is_duplicate-append :
    (x st : Stat) (xs : List Stat)
    → is_duplicate x (xs ++ st ∷ []) ≡ (is_duplicate x xs || same_object x st)
is_duplicate-append x st [] = ground arith
is_duplicate-append x st (y ∷ xs) = ground (arith, is_duplicate-append x st xs)

Distinct-append :
    (st : Stat) (xs : List Stat)
    → Distinct xs
    → is_duplicate st xs ≡ false
    → Distinct (xs ++ st ∷ [])
Distinct-append st [] h e = (refl, tt)
Distinct-append st (x ∷ xs) h e =
    (ground (arith, is_duplicate-append x st xs), Distinct-append st xs h.1 (ground arith))

module _ {k : Kernel} where
  abbrev Separate : Globals k → Type 0
  Separate g = Distinct g.root_dir_stat

  store_root-Distinct : (path : FilePath) (r : Option Stat) → Keeps Separate (store_root path r)
  unfolding store_root
  store_root-Distinct path none s h = tt
  store_root-Distinct path (some st) s h = elim (Bool-cases (is_duplicate st s.root_dir_stat)) [
    | inl e ↦ rw (e, Post) tt
    | inr e ↦ rw (e, Post) (Distinct-append st s.root_dir_stat h e)
  ]

  copy_root-Distinct : (path : FilePath) → Keeps Separate (copy_root path)
  unfolding copy_root
  copy_root-Distinct path s h = elim (Bool-cases (k.alloc s.world (length path + 1)).0) [
    | inl e ↦ rw (e, Post) (store_root-Distinct path _ _ h)
    | inr e ↦ rw (e, Post) tt
  ]

  -- When the roots have been copied, no two of them are the same file system object; otherwise the
  -- process has ended.
  pub copy_roots-Distinct :
      (dirs : List FilePath) (s : Globals k)
      → Post (λ _ t. Distinct t.root_dir_stat) (copy_roots dirs s)
  unfolding copy_roots
  copy_roots-Distinct dirs s =
      let t : Globals k = record s { root_dir_paths = []; root_dir_stat = [] } in
      Post-bind (λ _ u. Separate u) (λ _ u. Separate u) (for_each copy_root dirs) _ t
        (Keeps-for_each Separate copy_root dirs copy_root-Distinct t tt) (λ _ u q. q)
