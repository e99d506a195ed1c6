-- ===== src/Dtree/Invariant/Branches.antt =====
-- The branches of processNextInotifyEvent() keep the invariant.
use computer_science_notes.Base.{ltb}
use computer_science_notes.Base.{
  ℕ, ◌+◌, ◌≤◌, Bool, true, false, not, ◌&&◌, Option, none, some, List, [], ◌∷◌, if◌then◌else◌,
}
use computer_science_notes.Base.Int.{pos, minus_one, ◌==ℤ◌}
use computer_science_notes.Dtree.Paths.{FilePath}
use computer_science_notes.Dtree.Kernel.{Kernel, Event}
use computer_science_notes.Dtree.State.{M, pure, ◌>>=◌, ◌>>◌, when}
use computer_science_notes.Dtree.Slots.{
  mark_empty, find_watch_checked, path_at, check_cache_consistency, dump_cache_to_log,
}
use computer_science_notes.Dtree.Roots.{zap_root_dir_path, is_root_dir_path}
use computer_science_notes.Dtree.Subtree.{zap_subtree, reinitialize}
use computer_science_notes.Dtree.Events
use computer_science_notes.Dtree.Events.{Flow, go_on, return_now}
use computer_science_notes.Dtree.Invariant.Rules.{
  Post-bind, KeepsSound, IsSound, Keeps-bind, Keeps-when,
}
use computer_science_notes.Dtree.Invariant.Slots.{rewrite_cached_paths-IsCache}
use computer_science_notes.Dtree.Invariant.Calls.{
  watch_subtree-Keeps, zap_subtree-Keeps, reinitialize-Keeps,
}
use computer_science_notes.Dtree.Invariant.Checks.{
  zap_root_dir_path-Keeps, path_at-Keeps, mark_empty-Keeps, dump_cache_to_log-Keeps,
  find_watch_checked-Keeps, check_cache_consistency-Keeps,
}

module _ {k : Kernel} where
  check_and_dump-Keeps : KeepsSound k Events.check_and_dump
  unfolding Events.check_and_dump
  check_and_dump-Keeps s h =
      Keeps-bind IsSound (when s.check_cache check_cache_consistency) _
        (Keeps-when IsSound _ _ check_cache_consistency-Keeps)
        (λ _. Keeps-when IsSound _ _ (
          Keeps-bind IsSound dump_cache_to_log (λ _. pure tt) dump_cache_to_log-Keeps (λ _ t p. p)))
        s h

  renew_descriptor-Keeps : KeepsSound k Events.renew_descriptor
  unfolding Events.renew_descriptor
  renew_descriptor-Keeps s h =
      Post-bind (λ _. IsSound) (λ _. IsSound) (reinitialize (pos s.inotify_fd)) _ s
        (reinitialize-Keeps (pos s.inotify_fd) s h) (λ _ t p. p)

  start_again-Keeps : KeepsSound k Events.start_again
  unfolding Events.start_again
  start_again-Keeps =
      Keeps-bind IsSound Events.renew_descriptor _ renew_descriptor-Keeps (λ _ t p. p)

  on_create-Keeps : (slot : Option ℕ) (ev : Event) → KeepsSound k (Events.on_create slot ev)
  unfolding Events.on_create
  on_create-Keeps slot ev =
      Keeps-bind IsSound (path_at slot) _ (path_at-Keeps slot)
        (λ path s h. Keeps-when IsSound _ _ (watch_subtree-Keeps s.inotify_fd _) s h)

  on_delete_self-Keeps : (slot : Option ℕ) → KeepsSound k (Events.on_delete_self slot)
  unfolding Events.on_delete_self
  on_delete_self-Keeps slot = Keeps-bind IsSound (path_at slot) _ (path_at-Keeps slot) (λ path s h.
      Keeps-bind IsSound (when (is_root_dir_path path s.root_dir_paths) (zap_root_dir_path path)) _
        (Keeps-when IsSound _ _ (zap_root_dir_path-Keeps path)) (λ _. mark_empty-Keeps slot) s h)

  module _ (roomy : 2 ≤ k.path_max) where
    rename_to-Keeps :
        (slot : Option ℕ) (ev next_ev : Event) (next_slot : Option ℕ)
        → KeepsSound k (Events.rename_to slot ev next_ev next_slot)
    unfolding Events.rename_to
    rename_to-Keeps slot ev next_ev none = start_again-Keeps
    rename_to-Keeps slot ev next_ev (some j) =
        Keeps-bind IsSound (path_at slot) _ (path_at-Keeps slot) (λ a.
          Keeps-bind IsSound (path_at (some j)) _ (path_at-Keeps (some j)) (λ b s h. (
            rewrite_cached_paths-IsCache k.path_max a ev.name b next_ev.name s.cache roomy h.0,
            h.1,
          )))

  after_zap-Keeps : (ev : Event) (r : Option ℕ) → KeepsSound k (Events.after_zap ev r)
  unfolding Events.after_zap
  after_zap-Keeps ev none s h = start_again-Keeps s h
  after_zap-Keeps ev (some n) s h = h

  on_moved_out-Keeps : (slot : Option ℕ) (ev : Event) → KeepsSound k (Events.on_moved_out slot ev)
  unfolding Events.on_moved_out
  on_moved_out-Keeps slot ev = Keeps-bind IsSound (path_at slot) _ (path_at-Keeps slot) (λ path s h.
      Keeps-bind IsSound (zap_subtree s.inotify_fd _) (Events.after_zap ev)
        (zap_subtree-Keeps s.inotify_fd _) (after_zap-Keeps ev) s h)

  pub Keeps-if :
      {A : Type 0} (b : Bool) (m n : M k A)
      → KeepsSound k m
      → KeepsSound k n
      → KeepsSound k (if b then m else n)
  Keeps-if true m n hm hn s h = hm s h
  Keeps-if false m n hm hn s h = hn s h

  on_root_moved-Keeps : (path : FilePath) (ev : Event) → KeepsSound k (Events.on_root_moved path ev)
  unfolding Events.on_root_moved
  on_root_moved-Keeps path ev =
      Keeps-bind IsSound (zap_root_dir_path path) _ (zap_root_dir_path-Keeps path) (λ _ s h.
        Keeps-bind IsSound (zap_subtree s.inotify_fd path) (Events.after_zap ev)
          (zap_subtree-Keeps s.inotify_fd path) (after_zap-Keeps ev) s h)

  on_move_self-Keeps : (slot : Option ℕ) (ev : Event) → KeepsSound k (Events.on_move_self slot ev)
  unfolding Events.on_move_self
  on_move_self-Keeps slot ev = Keeps-bind IsSound (path_at slot) _ (path_at-Keeps slot) (λ path s h.
      Keeps-if (is_root_dir_path path s.root_dir_paths) _ _ (on_root_moved-Keeps path ev) (λ t p. p)
        s h)

  on_q_overflow-Keeps : KeepsSound k Events.on_q_overflow
  unfolding Events.on_q_overflow
  on_q_overflow-Keeps s h =
      Keeps-bind IsSound Events.renew_descriptor _ renew_descriptor-Keeps (λ _ t p. p)
        (record s { overflow_cnt = s.overflow_cnt + 1 }) h

  module _ (roomy : 2 ≤ k.path_max) where
    match_next-Keeps :
        (slot : Option ℕ) (ev : Event) (rest : List Event)
        → KeepsSound k (Events.match_next slot ev rest)
    unfolding Events.match_next Events.on_rename
    match_next-Keeps slot ev [] s h = tt
    match_next-Keeps slot ev (next_ev ∷ rest) s h =
        Keeps-if _ (Events.on_rename slot ev next_ev) (Events.on_moved_out slot ev)
          (Keeps-bind IsSound (find_watch_checked next_ev.wd) _
            (find_watch_checked-Keeps next_ev.wd) (rename_to-Keeps roomy slot ev next_ev))
          (on_moved_out-Keeps slot ev) s h

    on_moved_from-Keeps :
        (slot : Option ℕ) (ev : Event) (rest : List Event) (n : ℕ) (first : Bool)
        → KeepsSound k (Events.on_moved_from slot ev rest n first)
    unfolding Events.on_moved_from
    on_moved_from-Keeps slot ev rest n first =
        Keeps-if (ltb (Events.event_len k ev) n) (Events.match_next slot ev rest)
          (if not first then Events.on_moved_out slot ev else pure (return_now none))
          (match_next-Keeps slot ev rest)
          (Keeps-if (not first) (Events.on_moved_out slot ev) (pure (return_now none))
            (on_moved_out-Keeps slot ev) (λ t p. p))

    run_branch-Keeps :
        (b : Events.Branch) (slot : Option ℕ) (ev : Event) (rest : List Event) (n : ℕ)
        (first : Bool)
        → KeepsSound k (Events.run_branch b slot ev rest n first)
    unfolding Events.run_branch
    run_branch-Keeps Events.create slot ev rest n first =
        Keeps-bind IsSound (Events.on_create slot ev) _ (on_create-Keeps slot ev) (λ _ t p. p)
    run_branch-Keeps Events.delete_self slot ev rest n first =
        Keeps-bind IsSound (Events.on_delete_self slot) _ (on_delete_self-Keeps slot) (λ _ t p. p)
    run_branch-Keeps Events.moved_from slot ev rest n first =
        on_moved_from-Keeps slot ev rest n first
    run_branch-Keeps Events.q_overflow slot ev rest n first = on_q_overflow-Keeps
    run_branch-Keeps Events.unmount slot ev rest n first =
        Keeps-bind IsSound (path_at slot >> mark_empty slot) _
          (Keeps-bind IsSound (path_at slot) _ (path_at-Keeps slot) (λ _. mark_empty-Keeps slot))
          (λ _ t p. p)
    run_branch-Keeps Events.move_self slot ev rest n first = on_move_self-Keeps slot ev
    run_branch-Keeps Events.other slot ev rest n first = λ t p. p

  finish-Keeps : (f : Flow) → KeepsSound k (Events.finish f)
  unfolding Events.finish
  finish-Keeps (go_on n) s h =
      Keeps-bind IsSound Events.check_and_dump (λ _. pure (some n)) check_and_dump-Keeps
        (λ _ t p. p) s h
  finish-Keeps (return_now r) s h = h

  module _ (roomy : 2 ≤ k.path_max) where
    process_with_slot-Keeps :
        (slot : Option ℕ) (ev : Event) (rest : List Event) (n : ℕ) (first : Bool)
        → KeepsSound k (Events.process_with_slot slot ev rest n first)
    unfolding Events.process_with_slot Events.dispatch
    process_with_slot-Keeps slot ev rest n first =
        Keeps-bind IsSound (Events.run_branch (Events.branch_of ev.mask) slot ev rest n first)
          Events.finish (run_branch-Keeps roomy (Events.branch_of ev.mask) slot ev rest n first)
          finish-Keeps

    process_found-Keeps :
        (ev : Event) (rest : List Event) (n : ℕ) (first : Bool) (slot : Option ℕ)
        → KeepsSound k (Events.process_found ev rest n first slot)
    unfolding Events.process_found
    process_found-Keeps ev rest n first none s h =
        Keeps-bind IsSound Events.start_again _ start_again-Keeps finish-Keeps s h
    process_found-Keeps ev rest n first (some j) s h =
        process_with_slot-Keeps (some j) ev rest n first s h

    -- Whatever the event and whatever the kernel does, processNextInotifyEvent() keeps the
    -- invariant.
    pub process_next_inotify_event-Keeps :
        (ev : Event) (rest : List Event) (buf_size : ℕ) (first_try : Bool)
        → KeepsSound k (Events.process_next_inotify_event ev rest buf_size first_try)
    unfolding Events.process_next_inotify_event
    process_next_inotify_event-Keeps ev rest n first =
        Keeps-if (not (ev.wd ==ℤ minus_one) && not ev.mask.ignored)
          (find_watch_checked ev.wd >>= Events.process_found ev rest n first)
          (Events.process_with_slot none ev rest n first)
          (Keeps-bind IsSound (find_watch_checked ev.wd) _ (find_watch_checked-Keeps ev.wd)
            (process_found-Keeps ev rest n first))
          (process_with_slot-Keeps none ev rest n first)
