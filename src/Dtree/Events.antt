-- ===== src/Dtree/Events.antt =====
-- processNextInotifyEvent() of inotify_dtree.c, a definition for each of its branches.
use computer_science_notes.Dtree.Kernel.{Mask}
use computer_science_notes.Base.{
  ℕ, ◌+◌, ◌*◌, Bool, ◌&&◌, ◌||◌, not, Option, none, some, List, [], ◌∷◌, if◌then◌else◌, ◌==◌, ltb,
}
use computer_science_notes.Base.Int.{pos, minus_one, ◌==ℤ◌}
use computer_science_notes.Dtree.Paths.{FilePath, join_path}
use computer_science_notes.Dtree.Kernel.{Kernel, Event}
use computer_science_notes.Dtree.State.{M, ⊤, pure, gets, modify, ◌>>=◌, ◌>>◌, when, undefined_read}
use computer_science_notes.Dtree.Cache.{pathname_in_cache}
use computer_science_notes.Dtree.Slots.{
  path_at, mark_empty, find_watch_checked, check_cache_consistency, dump_cache_to_log,
}
use computer_science_notes.Dtree.Roots.{is_root_dir_path, zap_root_dir_path}
use computer_science_notes.Dtree.Subtree.{
  watch_subtree, rewrite_cached_paths, zap_subtree, reinitialize,
}

-- How a branch ends: it falls through to the end of the function with `evLen`, or it returns at
-- once, with `none` for the -1.
pub data Flow : Type 0 where
  go_on : ℕ → Flow
  return_now : Option ℕ → Flow

-- The branches of the function, and the one that an event's mask takes, in the order of the tests.
pub data Branch : Type 0 where
  create delete_self moved_from q_overflow unmount move_self other : Branch

unfoldable pub branch_of : Mask → Branch
branch_of m =
    if m.is_dir && (m.create || m.moved_to)
    then create
    else if m.delete_self
    then delete_self
    else if m.moved_from && m.is_dir
    then moved_from
    else if m.q_overflow
    then q_overflow
    else if m.unmount
    then unmount
    else if m.move_self
    then move_self
    else other

module _ (k : Kernel) where
  -- INOTIFY_READ_BUF_LEN
  abbrev pub inotify_read_buf_len : ℕ
  inotify_read_buf_len = 100 * (k.event_size + k.name_max + 1)

  -- The bytes that an event takes in the buffer.
  abbrev pub event_len : Event → ℕ
  event_len ev = k.event_size + ev.len

module _ {k : Kernel} where
  -- `*inotifyFd = reinitialize(*inotifyFd);`
  unfoldable pub renew_descriptor : M k ⊤
  renew_descriptor = do
    fd ← gets (λ s. s.inotify_fd)
    fd' ← reinitialize (pos fd)
    modify (λ s. record s { inotify_fd = fd' })

  -- The same with `return INOTIFY_READ_BUF_LEN;`, which discards what is left of the buffer.
  unfoldable pub start_again : M k Flow
  start_again = renew_descriptor >> pure (return_now (some (inotify_read_buf_len k)))

  -- IN_ISDIR with IN_CREATE or IN_MOVED_TO.
  unfoldable pub on_create : Option ℕ → Event → M k ⊤
  on_create slot ev = do
    path ← path_at slot
    s ← gets (λ s. s)
    let full_path = join_path (k.path_max + k.name_max) path ev.name
    when (not (pathname_in_cache full_path s.cache)) (watch_subtree s.inotify_fd full_path)

  -- IN_DELETE_SELF
  unfoldable pub on_delete_self : Option ℕ → M k ⊤
  on_delete_self slot = do
    path ← path_at slot
    roots ← gets (λ s. s.root_dir_paths)
    when (is_root_dir_path path roots) (zap_root_dir_path path)
    mark_empty slot

  -- The rename in the cache, once the slot of the IN_MOVED_TO has been looked up.
  unfoldable pub rename_to : Option ℕ → Event → Event → Option ℕ → M k Flow
  rename_to slot ev next_ev none = start_again
  rename_to slot ev next_ev (some j) = do
    old_prefix ← path_at slot
    new_prefix ← path_at (some j)
    modify (λ s. record s {
      cache = rewrite_cached_paths k.path_max old_prefix ev.name new_prefix next_ev.name s.cache;
    })
    pure (go_on (event_len k ev + event_len k next_ev))

  -- IN_MOVED_FROM of a directory, with its IN_MOVED_TO next in the buffer: a rename in the trees.
  unfoldable pub on_rename : Option ℕ → Event → Event → M k Flow
  on_rename slot ev next_ev = find_watch_checked next_ev.wd >>= rename_to slot ev next_ev

  -- zapSubtree() has returned: -1 is the inconsistent state.
  unfoldable pub after_zap : Event → Option ℕ → M k Flow
  after_zap ev none = start_again
  after_zap ev (some _) = pure (go_on (event_len k ev))

  -- IN_MOVED_FROM of a directory that has left the trees.
  unfoldable pub on_moved_out : Option ℕ → Event → M k Flow
  on_moved_out slot ev = do
    path ← path_at slot
    fd ← gets (λ s. s.inotify_fd)
    cnt ← zap_subtree fd (join_path (k.path_max + k.name_max) path ev.name)
    after_zap ev cnt

  -- There is a next event, the first of the list.
  unfoldable pub match_next : Option ℕ → Event → List Event → M k Flow
  match_next slot ev [] = undefined_read
  match_next slot ev (next_ev ∷ _) =
      if next_ev.mask.moved_to && next_ev.cookie == ev.cookie
      then on_rename slot ev next_ev
      else on_moved_out slot ev

  -- IN_MOVED_FROM of a directory. The last branch asks the caller to read on.
  unfoldable pub on_moved_from : Option ℕ → Event → List Event → ℕ → Bool → M k Flow
  on_moved_from slot ev rest buf_size first_try =
      if ltb (event_len k ev) buf_size
      then match_next slot ev rest
      else if not first_try
      then on_moved_out slot ev
      else pure (return_now none)

  -- IN_MOVE_SELF of a root directory.
  unfoldable pub on_root_moved : FilePath → Event → M k Flow
  on_root_moved path ev = do
    zap_root_dir_path path
    fd ← gets (λ s. s.inotify_fd)
    cnt ← zap_subtree fd path
    after_zap ev cnt

  -- IN_MOVE_SELF
  unfoldable pub on_move_self : Option ℕ → Event → M k Flow
  on_move_self slot ev = do
    path ← path_at slot
    roots ← gets (λ s. s.root_dir_paths)
    if is_root_dir_path path roots then on_root_moved path ev else pure (go_on (event_len k ev))

  -- IN_Q_OVERFLOW
  unfoldable pub on_q_overflow : M k Flow
  on_q_overflow = do
    modify (λ s. record s { overflow_cnt = s.overflow_cnt + 1 })
    renew_descriptor
    pure (go_on (inotify_read_buf_len k))

  -- The end of the function, behind the branches.
  unfoldable pub check_and_dump : M k ⊤
  check_and_dump = do
    s ← gets (λ s. s)
    when s.check_cache check_cache_consistency
    when s.dump_cache (dump_cache_to_log >> pure tt)

  -- The branches.
  unfoldable pub run_branch : Branch → Option ℕ → Event → List Event → ℕ → Bool → M k Flow
  run_branch create slot ev rest buf_size first_try =
      on_create slot ev >> pure (go_on (event_len k ev))
  run_branch delete_self slot ev rest buf_size first_try =
      on_delete_self slot >> pure (go_on (event_len k ev))
  run_branch moved_from slot ev rest buf_size first_try =
      on_moved_from slot ev rest buf_size first_try
  run_branch q_overflow slot ev rest buf_size first_try = on_q_overflow
  run_branch unmount slot ev rest buf_size first_try =
      path_at slot >> mark_empty slot >> pure (go_on (event_len k ev))
  run_branch move_self slot ev rest buf_size first_try = on_move_self slot ev
  run_branch other slot ev rest buf_size first_try = pure (go_on (event_len k ev))

  unfoldable pub dispatch : Option ℕ → Event → List Event → ℕ → Bool → M k Flow
  dispatch slot ev = run_branch (branch_of ev.mask) slot ev

  unfoldable pub finish : Flow → M k (Option ℕ)
  finish (go_on n) = check_and_dump >> pure (some n)
  finish (return_now r) = pure r

  -- The rest of the function once the cache has been consulted, with the slot that `evCacheSlot`
  -- holds.
  unfoldable pub process_with_slot : Option ℕ → Event → List Event → ℕ → Bool → M k (Option ℕ)
  process_with_slot slot ev rest buf_size first_try =
      dispatch slot ev rest buf_size first_try >>= finish

  -- The slot of the event's watch descriptor has been looked up.
  unfoldable pub process_found : Event → List Event → ℕ → Bool → Option ℕ → M k (Option ℕ)
  process_found ev rest buf_size first_try none = start_again >>= finish
  process_found ev rest buf_size first_try (some j) =
      process_with_slot (some j) ev rest buf_size first_try

  -- processNextInotifyEvent() at the event `ev`, with the events behind it, the bytes that the
  -- buffer holds and `firstTry`: the bytes consumed, or `none` for -1.
  unfoldable pub process_next_inotify_event : Event → List Event → ℕ → Bool → M k (Option ℕ)
  process_next_inotify_event ev rest buf_size first_try =
      if not (ev.wd ==ℤ minus_one) && not ev.mask.ignored
      then find_watch_checked ev.wd >>= process_found ev rest buf_size first_try
      else process_with_slot none ev rest buf_size first_try
