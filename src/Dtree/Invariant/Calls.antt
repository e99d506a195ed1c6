-- ===== src/Dtree/Invariant/Calls.antt =====
-- The functions of inotify_dtree.c that watch, zap and rebuild keep the invariant.
use computer_science_notes.Base.{
  ℕ, ◌+◌, ◌≡◌, inl, inr, Option, none, some, [], length, get_elem?, arith, Bool-cases, Option-cases,
  ◌∙◌,
}
use computer_science_notes.Base.Int.{ℤ, pos, negsuc}
use computer_science_notes.Dtree.Paths.{FilePath, copy_path}
use computer_science_notes.Dtree.Kernel.{Kernel, Stat, AddResult, added, no_entry, add_failed}
use computer_science_notes.Dtree.State.{Watch, Cache, Globals, pure, for_each, gets}
use computer_science_notes.Dtree.Cache.{
  empty_watch, find_watch, find_free, resize, uses, alloc_incr,
}
use computer_science_notes.Dtree.Cache.Lookup.{uses-append, uses-replicate}
use computer_science_notes.Dtree.Slots.{find_empty_cache_slot, add_watch_to_cache, free_cache}
use computer_science_notes.Dtree.Subtree.{
  cache_watch, traverse_tree, watch_dir, watch_subtree, zap_subtree, reinitialize,
  forget_descriptor, watch_root, watch_added, rebuild,
}
use computer_science_notes.Dtree.Invariant.Rules.{
  Post, Post-bind, Holds, KeepsSound, IsSound, Keeps-for_each,
}
use computer_science_notes.Dtree.Invariant.Slots.{
  resize-IsCache, fill_slot-IsCache, find_free-eq-some, resize-free, find_watch-eq-none,
  zap_slots-IsCache,
}

uses-resize : (n : ℕ) (c : Cache) → uses n (resize c) ≡ uses n c
unfolding resize
uses-resize n c = omega (arith, uses-append n c _, uses-replicate n alloc_incr)

module _ {k : Kernel} where
  -- The slot that findEmptyCacheSlot() returns is there, and the cache holds no more descriptors.
  find_empty_cache_slot_lem :
      (wd : ℕ) (s : Globals k)
      → uses wd s.cache ≡ 0
      → IsSound s
      → Post
          (λ slot t.
            IsSound t
            × (uses wd t.cache ≡ 0)
            × ((old : Watch) × (get_elem? t.cache slot ≡ some old)))
          (find_empty_cache_slot s)
  unfolding find_empty_cache_slot
  find_empty_cache_slot_lem wd s u h = elim (Option-cases (find_free s.cache)) [
    | inr (slot, e) ↦
        let (old, at_slot, _) = find_free-eq-some s.cache slot e in
        rw (e, Post) (h, u, (old, at_slot))
    | inl e ↦ elim (Bool-cases (k.alloc s.world (length s.cache + alloc_incr)).0) [
      | inl ok ↦
          rw (e, Post, ok)
            (
              (resize-IsCache s.cache h.0, h.1),
              uses-resize wd s.cache ∙ u,
              (empty_watch, resize-free s.cache),
            )
      | inr failed ↦ rw (e, Post, failed) tt
    ]
  ]

  add_watch_to_cache-Keeps :
      (wd : ℕ) (path : FilePath) (s : Globals k)
      → uses wd s.cache ≡ 0
      → IsSound s
      → Holds IsSound (add_watch_to_cache wd path s)
  unfolding add_watch_to_cache
  add_watch_to_cache-Keeps wd path s u h =
      Post-bind _ _ find_empty_cache_slot _ s (find_empty_cache_slot_lem wd s u h) (λ slot t p. (
        fill_slot-IsCache slot wd (copy_path k.path_max path) t.cache p.2.0 p.2.1 p.1 p.0.0,
        p.0.1,
      ))

  -- A descriptor that traverseTree() does not find in the cache is added, and stands there once.
  cache_watch-Keeps : (wd : ℕ) (path : FilePath) → KeepsSound k (cache_watch wd path)
  unfolding cache_watch
  cache_watch-Keeps wd path s h = elim (Option-cases (find_watch (pos wd) s.cache)) [
    | inr (slot, e) ↦ rw (e, Post) h
    | inl e ↦
        let t : Globals k = record s { dir_cnt = s.dir_cnt + 1 } in
        rw (e, Post)
          (Post-bind (λ _. IsSound) (λ _. IsSound) (add_watch_to_cache wd path) (λ _. pure tt) t
            (add_watch_to_cache-Keeps wd path t (find_watch-eq-none wd s.cache e) h) (λ _ t p. p))
  ]

  watch_added-Keeps : (path : FilePath) (r : AddResult) → KeepsSound k (watch_added path r)
  unfolding watch_added
  watch_added-Keeps path (added wd) = cache_watch-Keeps wd path
  watch_added-Keeps path no_entry = λ s h. h
  watch_added-Keeps path add_failed = λ s h. tt

  traverse_tree-Keeps : (fd : ℕ) (e : FilePath × Stat) → KeepsSound k (traverse_tree fd e)
  unfolding traverse_tree
  traverse_tree-Keeps fd (path, st) s h = elim (Bool-cases st.is_dir) [
    | inr file ↦ rw (file, Post) h
    | inl dir ↦ rw (dir, Post) (watch_added-Keeps path _ _ h)
  ]

  watch_dir-Keeps : (fd : ℕ) (path : FilePath) → KeepsSound k (watch_dir fd path)
  unfolding watch_dir
  watch_dir-Keeps fd path s h =
      Post-bind (λ _. IsSound) (λ _. IsSound) (for_each (traverse_tree fd) (k.nftw s.world path).0)
        (λ _. gets (λ t. t.dir_cnt)) (record s { dir_cnt = 0 })
        (Keeps-for_each IsSound (traverse_tree fd) (k.nftw s.world path).0 (traverse_tree-Keeps fd)
          (record s { dir_cnt = 0 }) h)
        (λ _ t p. p)

  pub watch_subtree-Keeps : (fd : ℕ) (path : FilePath) → KeepsSound k (watch_subtree fd path)
  unfolding watch_subtree
  watch_subtree-Keeps fd path s h =
      Post-bind (λ _. IsSound) (λ _. IsSound) (watch_dir fd path) (λ _. pure tt) s
        (watch_dir-Keeps fd path s h) (λ _ t p. p)

  pub zap_subtree-Keeps : (fd : ℕ) (path : FilePath) → KeepsSound k (zap_subtree fd path)
  unfolding zap_subtree
  zap_subtree-Keeps fd path s h = (zap_slots-IsCache k fd path 0 s.world s.cache h.0, h.1)

  watch_root-Keeps : (fd : ℕ) (r : Option FilePath) → KeepsSound k (watch_root fd r)
  watch_root-Keeps fd none s h = h
  watch_root-Keeps fd (some path) s h = watch_subtree-Keeps fd path s h

  rebuild-Keeps : (r : Option ℕ) → KeepsSound k (rebuild r)
  unfolding rebuild free_cache
  rebuild-Keeps none s h = tt
  rebuild-Keeps (some fd) s h =
      Post-bind (λ _. IsSound) (λ _. IsSound) (for_each (watch_root fd) s.root_dir_paths)
        (λ _. pure fd) _
        (Keeps-for_each IsSound (watch_root fd) s.root_dir_paths (watch_root-Keeps fd)
          (record s { cache = [] }) (record { slots = tt; unique = λ n. omega arith }, h.1))
        (λ _ t p. p)

  -- Rebuilding the cache.
  pub reinitialize-Keeps : (old : ℤ) → KeepsSound k (reinitialize old)
  unfolding reinitialize forget_descriptor
  reinitialize-Keeps (pos old) s h = rebuild-Keeps _ _ h
  reinitialize-Keeps (negsuc n) s h = rebuild-Keeps _ _ h
