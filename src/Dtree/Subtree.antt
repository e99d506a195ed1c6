-- ===== src/Dtree/Subtree.antt =====
-- Watching, renaming and zapping subtrees, and the rebuilding of the cache, in inotify_dtree.c.
use computer_science_notes.Dtree.Kernel.{AddResult}
use computer_science_notes.Base.{
  ℕ, ◌+◌, ◌-◌, true, false, ◌&&◌, not, Option, none, some, [], ◌∷◌, ◌++◌, if◌then◌else◌, length,
  map, take, drop,
}
use computer_science_notes.Base.Int.{ℤ, pos, negsuc}
use computer_science_notes.Dtree.Paths.{FilePath, in_subtree, join_path, copy_path}
use computer_science_notes.Dtree.Kernel.{Kernel, Stat, added, no_entry, add_failed}
use computer_science_notes.Dtree.State.{
  Watch, Cache, done, M, ⊤, pure, gets, exit_failure, modify, ◌>>=◌, ◌>>◌, call, for_each,
}
use computer_science_notes.Dtree.Cache.{empty_watch, is_used, find_watch}
use computer_science_notes.Dtree.Slots.{add_watch_to_cache, free_cache}
use computer_science_notes.Dtree.Roots.{is_root_dir_path}

-- The body of the loop in rewriteCachedPaths() for one slot.
unfoldable pub rewrite_slot : ℕ → FilePath → FilePath → Watch → Watch
rewrite_slot size full_path new_prefix w =
    if in_subtree full_path w.path
    then record w {
      path = copy_path size (take (size - 1) (new_prefix ++ drop (length full_path) w.path));
    }
    else w

-- rewriteCachedPaths(), on the cache.
unfoldable pub rewrite_cached_paths : ℕ → FilePath → FilePath → FilePath → FilePath → Cache → Cache
rewrite_cached_paths size old_prefix old_name new_prefix new_name c =
    map
      (rewrite_slot size (join_path size old_prefix old_name) (join_path size new_prefix new_name))
      c

-- The loop of zapSubtree(): the count, or `none` where inotify_rm_watch() fails and the loop
-- breaks; the world; and the slots.
unfoldable pub zap_slots :
    (k : Kernel) → ℕ → FilePath → ℕ → k.World → Cache → Option ℕ × k.World × Cache
zap_slots k fd pn cnt w [] = (some cnt, w, [])
zap_slots k fd pn cnt w (x ∷ c) = elim (is_used x && in_subtree pn x.path) [
  | true ↦
      let (removed, w') = k.inotify_rm_watch w fd x.wd in
      elim removed [
        | false ↦ (none, w', x ∷ c)
        | true ↦ let (r, w'', c') = zap_slots k fd pn (cnt + 1) w' c in (r, w'', empty_watch ∷ c')
      ]
  | false ↦ let (r, w', c') = zap_slots k fd pn cnt w c in (r, w', x ∷ c')
]

module _ {k : Kernel} where
  -- The part of traverseTree() behind a successful inotify_add_watch().
  unfoldable pub cache_watch : ℕ → FilePath → M k ⊤
  cache_watch wd pathname s = elim (find_watch (pos wd) s.cache) [
    | some _ ↦ done tt s
    | none ↦ (add_watch_to_cache wd pathname >> pure tt) (record s { dir_cnt = s.dir_cnt + 1 })
  ]

  -- What traverseTree() does with the result of inotify_add_watch().
  unfoldable pub watch_added : FilePath → AddResult → M k ⊤
  watch_added pathname (added wd) = cache_watch wd pathname
  watch_added pathname no_entry = pure tt
  watch_added pathname add_failed = exit_failure

  -- traverseTree(), the function that nftw() calls: it always returns 0, if it returns.
  unfoldable pub traverse_tree : ℕ → FilePath × Stat → M k ⊤
  traverse_tree ifd (pathname, st) = if not st.is_dir then pure tt else (do
    roots ← gets (λ s. s.root_dir_paths)
    r ← call (λ w. k.inotify_add_watch w ifd pathname (is_root_dir_path pathname roots))
    watch_added pathname r)

  -- watchDir(): how many entries were added.
  unfoldable pub watch_dir : ℕ → FilePath → M k ℕ
  watch_dir fd pathname = do
    modify (λ s. record s { dir_cnt = 0 })
    s ← gets (λ s. s)
    for_each (traverse_tree fd) (k.nftw s.world pathname).0
    gets (λ s. s.dir_cnt)

  -- watchSubtree()
  unfoldable pub watch_subtree : ℕ → FilePath → M k ⊤
  watch_subtree fd path = watch_dir fd path >> pure tt

  -- zapSubtree(): `none` is the -1.
  unfoldable pub zap_subtree : ℕ → FilePath → M k (Option ℕ)
  zap_subtree fd path s =
      let (r, w, c) = zap_slots k fd path 0 s.world s.cache in
      done r (record s { world = w; cache = c })

  abbrev pub watch_root : ℕ → Option FilePath → M k ⊤
  watch_root fd none = pure tt
  watch_root fd (some path) = watch_subtree fd path

  -- The part of reinitialize() up to the new descriptor.
  unfoldable pub forget_descriptor : ℤ → M k ⊤
  forget_descriptor (pos old) =
      modify λ s. record s { world = k.close s.world old; reinit_cnt = s.reinit_cnt + 1 }
  forget_descriptor (negsuc _) = modify λ s. record s { reinit_cnt = 0 }

  -- The part behind inotify_init().
  unfoldable pub rebuild : Option ℕ → M k ℕ
  rebuild none = exit_failure
  rebuild (some fd) = do
    free_cache
    roots ← gets (λ s. s.root_dir_paths)
    for_each (watch_root fd) roots
    pure fd

  -- reinitialize()
  unfoldable pub reinitialize : ℤ → M k ℕ
  reinitialize old_fd = do forget_descriptor old_fd; r ← call (λ w. k.inotify_init w); rebuild r
