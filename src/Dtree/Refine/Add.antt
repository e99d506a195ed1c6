-- ===== src/Dtree/Refine/Add.antt =====
-- Adding watches: addWatchToCache() enters one descriptor, and a traversal only ever adds.
use computer_science_notes.Base.{◌≢◌}
use computer_science_notes.Dtree.Invariant.Rules.{Keeps-for_each}
use computer_science_notes.Dtree.Invariant.Rules.{Keeps}
use computer_science_notes.Base.{ap}
use computer_science_notes.Base.{
  ℕ, zero, suc, ◌+◌, ◌≡◌, refl, inl, inr, true, Option, none, some, [], ◌∷◌, length, get_elem?,
  arith, if◌then◌else◌, ◌==◌, Bool-cases, Option-cases, ◌∙◌,
}
use computer_science_notes.Base.Int.{pos, minus_one}
use computer_science_notes.Dtree.Paths.{FilePath, copy_path}
use computer_science_notes.Dtree.Kernel.{Kernel, Stat, AddResult, added, no_entry, add_failed}
use computer_science_notes.Dtree.State.{Watch, Cache, Globals, pure, for_each, gets}
use computer_science_notes.Dtree.Cache.{
  empty_watch, has_wd, find_watch, find_free, resize, lookup, alloc_incr,
}
use computer_science_notes.Dtree.Cache.Lookup.{
  lookup-fill_slot, lookup-append, uses-replicate, lookup-none_iff,
}
use computer_science_notes.Dtree.Roots.{is_root_dir_path}
use computer_science_notes.Dtree.Slots.{find_empty_cache_slot, add_watch_to_cache}
use computer_science_notes.Dtree.Subtree.{cache_watch, watch_added, traverse_tree, watch_dir}
use computer_science_notes.Dtree.Invariant.Rules.{Post, Post-bind}
use computer_science_notes.Dtree.Invariant.Slots.{
  find_free-eq-some, resize-free, find_watch-eq-none,
}

lookup-resize : (m : ℕ) (c : Cache) → lookup m (resize c) ≡ lookup m c
unfolding resize
lookup-resize m c = lookup-append m c _ (uses-replicate m alloc_incr)

-- The same pathnames under the same descriptors.
abbrev pub SameMap : Cache → Cache → Type 0
SameMap c d = (m : ℕ) → lookup m d ≡ lookup m c

-- What was in the map is there still.
abbrev pub Extends : Cache → Cache → Type 0
Extends c d = (m : ℕ) (p : FilePath) → lookup m c ≡ some p → lookup m d ≡ some p

lookup-of_find_watch : (wd j : ℕ) (c : Cache) → find_watch (pos wd) c ≡ some j → lookup wd c ≢ none
unfolding find_watch
lookup-of_find_watch wd j [] h e = cc
lookup-of_find_watch wd zero (w ∷ c) h e = ground arith
lookup-of_find_watch wd (suc j) (w ∷ c) h e = ground (arith, lookup-of_find_watch wd j c)

entry_kept :
    (wd m : ℕ) (path p : FilePath) (c d : Cache)
    → lookup wd c ≡ none
    → lookup m d ≡ (if wd == m then some path else lookup m c)
    → lookup m c ≡ some p
    → lookup m d ≡ some p
entry_kept wd m path p c d fresh e h = ground arith

entered :
    (wd : ℕ) (path : FilePath) (old new : Option FilePath)
    → new ≡ (if wd == wd then some path else old)
    → new ≢ none
entered wd path old new e h = ground arith

module _ {k : Kernel} where
  find_empty_cache_slot-SameMap :
      (s : Globals k)
      → Post
          (λ slot t.
            SameMap s.cache t.cache
            × ((old : Watch) × (get_elem? t.cache slot ≡ some old) × (has_wd minus_one old ≡ true)))
          (find_empty_cache_slot s)
  unfolding find_empty_cache_slot
  find_empty_cache_slot-SameMap s = elim (Option-cases (find_free s.cache)) [
    | inr (slot, e) ↦ rw (e, Post) (λ m. refl, find_free-eq-some s.cache slot e)
    | inl e ↦ elim (Bool-cases (k.alloc s.world (length s.cache + alloc_incr)).0) [
      | inl ok ↦
          rw (e, Post, ok) (λ m. lookup-resize m s.cache, (empty_watch, resize-free s.cache, refl))
      | inr failed ↦ rw (e, Post, failed) tt
    ]
  ]

  -- For a descriptor that the cache does not hold, addWatchToCache() enters it with the pathname
  -- that strncpy() keeps, in whatever slot, and changes no other entry of the map; if it returns.
  pub add_watch_to_cache_lem :
      (wd : ℕ) (path : FilePath) (s : Globals k)
      → lookup wd s.cache ≡ none
      → Post
          (λ slot t.
            (m : ℕ)
            → lookup m t.cache
              ≡ (if wd == m then some (copy_path k.path_max path) else lookup m s.cache))
          (add_watch_to_cache wd path s)
  unfolding add_watch_to_cache
  add_watch_to_cache_lem wd path s new =
      Post-bind _ _ find_empty_cache_slot _ s (find_empty_cache_slot-SameMap s) (λ slot t p m.
        lookup-fill_slot m wd slot (copy_path k.path_max path) t.cache p.1.0 p.1.1 p.1.2
          ((lookup-none_iff wd t.cache).0 (p.0 wd ∙ new))
        ∙ ap (λ o. if wd == m then some (copy_path k.path_max path) else o) (p.0 m))

  cache_watch-Extends :
      (c : Cache) (wd : ℕ) (path : FilePath)
      → Keeps (λ g. Extends c g.cache) (cache_watch {k = k} wd path)
  unfolding cache_watch
  cache_watch-Extends c wd path s ext = elim (Option-cases (find_watch (pos wd) s.cache)) [
    | inr (slot, e) ↦ rw (e, Post) ext
    | inl e ↦
        let t : Globals k = record s { dir_cnt = s.dir_cnt + 1 } in
        let fresh = (lookup-none_iff wd s.cache).1 (find_watch-eq-none wd s.cache e) in
        rw (e, Post)
          (Post-bind _ (λ _ u. Extends c u.cache) (add_watch_to_cache wd path) (λ _. pure tt) t
            (add_watch_to_cache_lem wd path t fresh)
            (λ slot u q m p h.
              entry_kept wd m (copy_path k.path_max path) p s.cache u.cache fresh (q m)
                (ext m p h)))
  ]

  watch_added-Extends :
      (c : Cache) (path : FilePath) (r : AddResult)
      → Keeps (λ g. Extends c g.cache) (watch_added {k = k} path r)
  unfolding watch_added
  watch_added-Extends c path (added wd) s h = cache_watch-Extends c wd path s h
  watch_added-Extends c path no_entry s h = h
  watch_added-Extends c path add_failed s h = tt

  traverse_tree-Extends :
      (c : Cache) (fd : ℕ) (e : FilePath × Stat)
      → Keeps (λ g. Extends c g.cache) (traverse_tree {k = k} fd e)
  unfolding traverse_tree
  traverse_tree-Extends c fd (path, st) s h = elim (Bool-cases st.is_dir) [
    | inr file ↦ rw (file, Post) h
    | inl dir ↦ rw (dir, Post) (watch_added-Extends c path _ _ h)
  ]

  -- watchDir() keeps every entry of the map, whatever the traversal meets, if it returns.
  pub watch_dir-Extends :
      (fd : ℕ) (path : FilePath) (s : Globals k)
      → Post (λ _ t. Extends s.cache t.cache) (watch_dir fd path s)
  unfolding watch_dir
  watch_dir-Extends fd path s =
      Post-bind (λ _ t. Extends s.cache t.cache) (λ _ t. Extends s.cache t.cache)
        (for_each (traverse_tree fd) (k.nftw s.world path).0) (λ _. gets (λ t. t.dir_cnt))
        (record s { dir_cnt = 0 })
        (Keeps-for_each (λ g. Extends s.cache g.cache) (traverse_tree fd) (k.nftw s.world path).0
          (traverse_tree-Extends s.cache fd) (record s { dir_cnt = 0 }) (λ m p h. h))
        (λ _ t p. p)

  cache_watch_watches :
      (wd : ℕ) (path : FilePath) (s : Globals k)
      → Post (λ _ t. lookup wd t.cache ≢ none) (cache_watch wd path s)
  unfolding cache_watch
  cache_watch_watches wd path s = elim (Option-cases (find_watch (pos wd) s.cache)) [
    | inr (slot, e) ↦ rw (e, Post) (lookup-of_find_watch wd slot s.cache e)
    | inl e ↦
        let t : Globals k = record s { dir_cnt = s.dir_cnt + 1 } in
        let fresh = (lookup-none_iff wd s.cache).1 (find_watch-eq-none wd s.cache e) in
        rw (e, Post)
          (Post-bind _ (λ _ u. lookup wd u.cache ≢ none) (add_watch_to_cache wd path) (λ _. pure tt)
            t (add_watch_to_cache_lem wd path t fresh)
            (λ slot u q h.
              entered wd (copy_path k.path_max path) (lookup wd s.cache) (lookup wd u.cache) (q wd)
                h))
  ]

  -- Once traverseTree() returns, the descriptor that inotify_add_watch() gave for a directory is
  -- in the cache.
  pub traverse_tree_watches :
      (fd wd : ℕ) (path : FilePath) (st : Stat) (s : Globals k)
      → st.is_dir ≡ true
      → (k.inotify_add_watch s.world fd path (is_root_dir_path path s.root_dir_paths)).0 ≡ added wd
      → Post (λ _ t. lookup wd t.cache ≢ none) (traverse_tree fd (path, st) s)
  unfolding traverse_tree watch_added
  traverse_tree_watches fd wd path st s dir ok =
      rw (dir, Post, ok, watch_added) (cache_watch_watches wd path _)
