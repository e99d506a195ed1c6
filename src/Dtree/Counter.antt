-- ===== src/Dtree/Counter.antt =====
-- The count of rebuilds in inotify_dtree.c, reinitCnt: only reinitialize() changes it.
use computer_science_notes.Base.{
  ℕ, ◌+◌, ◌≡◌, refl, inl, inr, Option, none, some, [], arith, Bool-cases, Option-cases, length,
}
use computer_science_notes.Base.Int.{ℤ, pos}
use computer_science_notes.Dtree.Paths.{FilePath}
use computer_science_notes.Dtree.Kernel.{
  Kernel, Event, Stat, AddResult, added, no_entry, add_failed,
}
use computer_science_notes.Dtree.State.{Globals, M, pure, gets, for_each, when}
use computer_science_notes.Dtree.Cache.{find_watch, find_free, alloc_incr}
use computer_science_notes.Dtree.Slots.{
  path_at, mark_empty, find_watch_checked, find_empty_cache_slot, add_watch_to_cache, free_cache,
  check_cache_consistency, dump_cache_to_log, create_stop_file_and_abort,
}
use computer_science_notes.Dtree.Roots.{zap_root_dir_path, is_root_dir_path}
use computer_science_notes.Dtree.Subtree.{
  cache_watch, watch_added, traverse_tree, watch_dir, watch_subtree, zap_subtree, watch_root,
  rebuild, reinitialize, forget_descriptor,
}
use computer_science_notes.Dtree.Events
use computer_science_notes.Dtree.Invariant.Rules.{
  Post, Post-bind, Keeps, Keeps-bind, Keeps-for_each, Keeps-when,
}
use computer_science_notes.Dtree.Invariant.Checks.{check_slots-Keeps}

-- The cache has been rebuilt so often.
abbrev pub Rebuilt : {k : Kernel} → ℕ → Globals k → Type 0
Rebuilt c s = s.reinit_cnt ≡ c

abbrev pub KeepsCount : {k : Kernel} → ℕ → {A : Type 0} → M k A → Type 0
KeepsCount c m = Keeps (Rebuilt c) m

module _ {k : Kernel} (c : ℕ) where
  pub path_at-KeepsCount : (slot : Option ℕ) → KeepsCount {k = k} c (path_at slot)
  unfolding path_at
  path_at-KeepsCount slot s h = ground arith

  pub mark_empty-KeepsCount : (slot : Option ℕ) → KeepsCount {k = k} c (mark_empty slot)
  unfolding mark_empty
  mark_empty-KeepsCount none s h = tt
  mark_empty-KeepsCount (some j) s h = h

  dump_cache_to_log-KeepsCount : KeepsCount {k = k} c dump_cache_to_log
  unfolding dump_cache_to_log
  dump_cache_to_log-KeepsCount s h = elim (Bool-cases s.has_log) [
    | inl e ↦ rw (e, Post) h
    | inr e ↦ rw (e, Post) tt
  ]

  create_stop_file_and_abort-KeepsCount :
      (A : Type 0) → KeepsCount {k = k} c (create_stop_file_and_abort {A = A})
  unfolding create_stop_file_and_abort
  create_stop_file_and_abort-KeepsCount A =
      Keeps-bind (Rebuilt c) dump_cache_to_log _ dump_cache_to_log-KeepsCount (λ _ s h. tt)

  pub find_watch_checked-KeepsCount : (wd : ℤ) → KeepsCount {k = k} c (find_watch_checked wd)
  unfolding find_watch_checked
  find_watch_checked-KeepsCount wd s h = elim (Option-cases (find_watch wd s.cache)) [
    | inr (j, e) ↦ rw (e, Post) h
    | inl e ↦ elim (Bool-cases s.abort_on_cache_problem) [
      | inl strict ↦ rw (e, Post, strict) (create_stop_file_and_abort-KeepsCount (Option ℕ) _ h)
      | inr lax ↦ rw (e, Post, lax) h
    ]
  ]

  pub zap_root_dir_path-KeepsCount :
      (path : FilePath) → KeepsCount {k = k} c (zap_root_dir_path path)
  unfolding zap_root_dir_path
  zap_root_dir_path-KeepsCount path s h = ground arith

  pub zap_subtree-KeepsCount :
      (fd : ℕ) (path : FilePath) → KeepsCount {k = k} c (zap_subtree fd path)
  unfolding zap_subtree
  zap_subtree-KeepsCount fd path s h = h

  find_empty_cache_slot-KeepsCount : KeepsCount {k = k} c find_empty_cache_slot
  unfolding find_empty_cache_slot
  find_empty_cache_slot-KeepsCount s h = elim (Option-cases (find_free s.cache)) [
    | inr (slot, e) ↦ rw (e, Post) h
    | inl e ↦ elim (Bool-cases (k.alloc s.world (length s.cache + alloc_incr)).0) [
      | inl ok ↦ rw (e, Post, ok) h
      | inr failed ↦ rw (e, Post, failed) tt
    ]
  ]

  add_watch_to_cache-KeepsCount :
      (wd : ℕ) (path : FilePath) → KeepsCount {k = k} c (add_watch_to_cache wd path)
  unfolding add_watch_to_cache
  add_watch_to_cache-KeepsCount wd path =
      Keeps-bind (Rebuilt c) find_empty_cache_slot _ find_empty_cache_slot-KeepsCount
        (λ slot t p. p)

  cache_watch-KeepsCount : (wd : ℕ) (path : FilePath) → KeepsCount {k = k} c (cache_watch wd path)
  unfolding cache_watch
  cache_watch-KeepsCount wd path s h = elim (Option-cases (find_watch (pos wd) s.cache)) [
    | inr (slot, e) ↦ rw (e, Post) h
    | inl e ↦
        rw (e, Post)
          (Keeps-bind (Rebuilt c) (add_watch_to_cache wd path) (λ _. pure tt)
            (add_watch_to_cache-KeepsCount wd path) (λ _ t p. p)
            (record s { dir_cnt = s.dir_cnt + 1 }) h)
  ]

  watch_added-KeepsCount :
      (path : FilePath) (r : AddResult) → KeepsCount {k = k} c (watch_added path r)
  unfolding watch_added
  watch_added-KeepsCount path (added wd) = cache_watch-KeepsCount wd path
  watch_added-KeepsCount path no_entry = λ s h. h
  watch_added-KeepsCount path add_failed = λ s h. tt

  traverse_tree-KeepsCount :
      (fd : ℕ) (e : FilePath × Stat) → KeepsCount {k = k} c (traverse_tree fd e)
  unfolding traverse_tree
  traverse_tree-KeepsCount fd (path, st) s h = elim (Bool-cases st.is_dir) [
    | inr file ↦ rw (file, Post) h
    | inl dir ↦ rw (dir, Post) (watch_added-KeepsCount path _ _ h)
  ]

  watch_dir-KeepsCount : (fd : ℕ) (path : FilePath) → KeepsCount {k = k} c (watch_dir fd path)
  unfolding watch_dir
  watch_dir-KeepsCount fd path s h =
      Keeps-bind (Rebuilt c) (for_each (traverse_tree fd) (k.nftw s.world path).0)
        (λ _. gets (λ t. t.dir_cnt))
        (Keeps-for_each (Rebuilt c) (traverse_tree fd) _ (traverse_tree-KeepsCount fd)) (λ _ t p. p)
        (record s { dir_cnt = 0 }) h

  pub watch_subtree-KeepsCount :
      (fd : ℕ) (path : FilePath) → KeepsCount {k = k} c (watch_subtree fd path)
  unfolding watch_subtree
  watch_subtree-KeepsCount fd path =
      Keeps-bind (Rebuilt c) (watch_dir fd path) (λ _. pure tt) (watch_dir-KeepsCount fd path)
        (λ _ t p. p)

  watch_root-KeepsCount : (fd : ℕ) (r : Option FilePath) → KeepsCount {k = k} c (watch_root fd r)
  watch_root-KeepsCount fd none s h = h
  watch_root-KeepsCount fd (some path) s h = watch_subtree-KeepsCount fd path s h

  rebuild-KeepsCount : (r : Option ℕ) → KeepsCount {k = k} c (rebuild r)
  unfolding rebuild free_cache
  rebuild-KeepsCount none s h = tt
  rebuild-KeepsCount (some fd) s h =
      Keeps-bind (Rebuilt c) (for_each (watch_root fd) s.root_dir_paths) (λ _. pure fd)
        (Keeps-for_each (Rebuilt c) (watch_root fd) s.root_dir_paths (watch_root-KeepsCount fd))
        (λ _ t p. p) (record s { cache = [] }) h

  pub check_and_dump-KeepsCount : KeepsCount {k = k} c Events.check_and_dump
  unfolding Events.check_and_dump check_cache_consistency
  check_and_dump-KeepsCount s h =
      Keeps-bind (Rebuilt c) (when s.check_cache check_cache_consistency) _
        (Keeps-when (Rebuilt c) _ _ (λ t p.
          Keeps-bind (Rebuilt c) _ (λ _. pure tt) (check_slots-Keeps (Rebuilt c) none 0 t.cache)
            (λ _ u q. q) t p))
        (λ _. Keeps-when (Rebuilt c) _ _ (
          Keeps-bind (Rebuilt c) dump_cache_to_log (λ _. pure tt) dump_cache_to_log-KeepsCount
            (λ _ t p. p)))
        s h

  pub on_create-KeepsCount :
      (slot : Option ℕ) (ev : Event) → KeepsCount {k = k} c (Events.on_create slot ev)
  unfolding Events.on_create
  on_create-KeepsCount slot ev =
      Keeps-bind (Rebuilt c) (path_at slot) _ (path_at-KeepsCount slot)
        (λ path s h. Keeps-when (Rebuilt c) _ _ (watch_subtree-KeepsCount s.inotify_fd _) s h)

  pub on_delete_self-KeepsCount :
      (slot : Option ℕ) → KeepsCount {k = k} c (Events.on_delete_self slot)
  unfolding Events.on_delete_self
  on_delete_self-KeepsCount slot =
      Keeps-bind (Rebuilt c) (path_at slot) _ (path_at-KeepsCount slot) (λ path s h.
        Keeps-bind (Rebuilt c)
          (when (is_root_dir_path path s.root_dir_paths) (zap_root_dir_path path)) _
          (Keeps-when (Rebuilt c) _ _ (zap_root_dir_path-KeepsCount path))
          (λ _. mark_empty-KeepsCount slot) s h)

-- Where the descriptor is renewed, the cache is rebuilt, once.
pub renew_descriptor-Rebuilt :
    {k : Kernel} (s : Globals k)
    → Post (λ _ t. t.reinit_cnt ≡ s.reinit_cnt + 1) (Events.renew_descriptor s)
unfolding Events.renew_descriptor reinitialize forget_descriptor
renew_descriptor-Rebuilt {k} s =
    Post-bind (λ _ t. t.reinit_cnt ≡ s.reinit_cnt + 1) (λ _ t. t.reinit_cnt ≡ s.reinit_cnt + 1)
      (reinitialize (pos s.inotify_fd)) _ s (rebuild-KeepsCount (s.reinit_cnt + 1) _ _ refl)
      (λ _ t p. p)
