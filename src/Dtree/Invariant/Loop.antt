-- ===== src/Dtree/Invariant/Loop.antt =====
-- The reading of events, every command and every round of main()'s loop keep the invariant, which
-- the start of main() establishes.
use computer_science_notes.Dtree.State.{undefined_write}
use computer_science_notes.Dtree.Events.{inotify_read_buf_len}
use computer_science_notes.Base.{
  ℕ, zero, suc, ◌+◌, ◌≤◌, inl, inr, Bool, true, false, Option, none, some, List, [], ◌∷◌,
  Bool-cases, Option-cases, ◌==◌, ltb,
}
use computer_science_notes.Base.Int.{minus_one}
use computer_science_notes.Dtree.Paths.{FilePath}
use computer_science_notes.Dtree.Kernel.{
  Kernel, Event, ReadResult, got, end_of_file, interrupted, read_failed,
}
use computer_science_notes.Dtree.State.{Cache, undefined, pure, ◌>>=◌, ◌>>◌, when}
use computer_science_notes.Dtree.Cache.{is_used}
use computer_science_notes.Dtree.Subtree.{watch_subtree, zap_subtree, reinitialize}
use computer_science_notes.Dtree.Reader
use computer_science_notes.Dtree.Commands
use computer_science_notes.Dtree.Main
use computer_science_notes.Dtree.Main.{Flag}
use computer_science_notes.Dtree.Events
use computer_science_notes.Dtree.Invariant.Rules.{Post, KeepsSound, IsSound, Keeps-bind, Keeps-when}
use computer_science_notes.Dtree.Invariant.Calls.{
  watch_subtree-Keeps, zap_subtree-Keeps, reinitialize-Keeps,
}
use computer_science_notes.Dtree.Invariant.Branches.{process_next_inotify_event-Keeps, Keeps-if}

module _ {k : Kernel} where
  take_more-Keeps : (c : Reader.Cursor) (r : ReadResult) → KeepsSound k (Reader.take_more c r)
  unfolding Reader.take_more
  take_more-Keeps c (got evs n) s h = h
  take_more-Keeps c interrupted s h = h
  take_more-Keeps c end_of_file s h = tt
  take_more-Keeps c read_failed s h = tt

  read_more-Keeps : (c : Reader.Cursor) → KeepsSound k (Reader.read_more c)
  unfolding Reader.read_more
  read_more-Keeps c s h = take_more-Keeps c _ _ h

  move_on-Keeps : (c : Reader.Cursor) (r : Option ℕ) → KeepsSound k (Reader.move_on c r)
  unfolding Reader.move_on
  move_on-Keeps c none s h = read_more-Keeps c s h
  move_on-Keeps c (some n) s h =
      Keeps-if (ltb 0 n) (pure _) (Reader.read_more c) (λ t p. p) (read_more-Keeps c) s h

  module _ (roomy : 2 ≤ k.path_max) where
    next_round-Keeps : (c : Reader.Cursor) → KeepsSound k (Reader.next_round c)
    unfolding Reader.next_round Reader.round
    next_round-Keeps c = go c.events c
      where
        go :
            (evs : List Event) (c : Reader.Cursor)
            → KeepsSound k (elim evs [ [] ↦ λ s. undefined | ev ∷ rest ↦ Reader.round ev rest c ])
        go [] c s h = tt
        go (ev ∷ rest) c s h =
            Keeps-bind IsSound (Events.process_next_inotify_event ev rest c.remaining c.first_try)
              (Reader.move_on c)
              (process_next_inotify_event-Keeps roomy ev rest c.remaining c.first_try)
              (move_on-Keeps c) s h

    process_buffer-Keeps :
        (fuel : ℕ) (c : Reader.Cursor) → KeepsSound k (Reader.process_buffer fuel c)
    unfolding Reader.process_buffer
    process_buffer-Keeps zero c s h = h
    process_buffer-Keeps (suc fuel) c s h =
        Keeps-if (ltb 0 c.remaining) (Reader.next_round c >>= Reader.process_buffer fuel)
          (pure true)
          (Keeps-bind IsSound (Reader.next_round c) _ (next_round-Keeps c)
            (process_buffer-Keeps fuel))
          (λ t p. p) s h

    process_read-Keeps : (fuel : ℕ) (r : ReadResult) → KeepsSound k (Reader.process_read fuel r)
    unfolding Reader.process_read
    process_read-Keeps fuel (got evs n) s h =
        Keeps-if (ltb (inotify_read_buf_len k) n) undefined_write _ (λ t p. tt)
          (λ t p. process_buffer-Keeps fuel _ _ p) s h
    process_read-Keeps fuel interrupted s h = tt
    process_read-Keeps fuel end_of_file s h = tt
    process_read-Keeps fuel read_failed s h = tt

    pub process_inotify_events-Keeps :
        (fuel : ℕ) → KeepsSound k (Reader.process_inotify_events fuel)
    unfolding Reader.process_inotify_events
    process_inotify_events-Keeps fuel s h = process_read-Keeps fuel _ _ h

  argument-Keeps : (arg : Option FilePath) → KeepsSound k (Commands.argument arg)
  argument-Keeps none s h = tt
  argument-Keeps (some a) s h = h

  add_subtree-Keeps : (arg : FilePath) → KeepsSound k (Commands.add_subtree arg)
  unfolding Commands.add_subtree
  add_subtree-Keeps arg s h =
      Keeps-bind IsSound (zap_subtree s.inotify_fd arg) _ (zap_subtree-Keeps s.inotify_fd arg)
        (λ _.
          Keeps-bind IsSound (watch_subtree s.inotify_fd arg) _
            (watch_subtree-Keeps s.inotify_fd arg) (λ _ t p. p))
        s h

  zap_command-Keeps : (arg : Option FilePath) → KeepsSound k (Commands.zap_command arg)
  unfolding Commands.zap_command
  zap_command-Keeps arg =
      Keeps-bind IsSound (Commands.argument arg) _ (argument-Keeps arg) (λ path s h.
        Keeps-bind IsSound (zap_subtree s.inotify_fd path) _ (zap_subtree-Keeps s.inotify_fd path)
          (λ _ t p. p) s h)

  verify_slots-Keeps : (n m : ℕ) (c : Cache) → KeepsSound k (Commands.verify_slots n m c)
  unfolding Commands.verify_slots
  verify_slots-Keeps n m [] s h = h
  verify_slots-Keeps n m (w ∷ c) s h = elim (Bool-cases (is_used w)) [
    | inr free ↦ rw (free, Post) (verify_slots-Keeps n m c s h)
    | inl used ↦ elim (Option-cases (k.lstat s.world w.path)) [
      | inl e ↦ rw (used, Post, e) (verify_slots-Keeps n (m + 1) c s h)
      | inr (st, e) ↦ elim (Bool-cases st.is_dir) [
        | inl dir ↦ rw (used, Post, e, dir) (verify_slots-Keeps (n + 1) m c s h)
        | inr file ↦ rw (used, Post, e, file) tt
      ]
    ]
  ]

  set_verbose-Keeps : (arg : Option FilePath) → KeepsSound k (Commands.set_verbose arg)
  unfolding Commands.set_verbose
  set_verbose-Keeps none s h = h
  set_verbose-Keeps (some a) s h = h

  write_list-Keeps : (arg : FilePath) → KeepsSound k (Commands.write_list arg)
  unfolding Commands.write_list
  write_list-Keeps arg s h = elim (Bool-cases (k.fopen s.world arg).0) [
    | inl e ↦ rw (e, Post) h
    | inr e ↦ rw (e, Post) tt
  ]

  rebuild_cache-Keeps : KeepsSound k Commands.rebuild_cache
  unfolding Commands.rebuild_cache
  rebuild_cache-Keeps s h =
      Keeps-bind IsSound (reinitialize minus_one) _ (reinitialize-Keeps minus_one) (λ _ t p. p) _ h

  run_command-Keeps :
      (cmd : Commands.Command) (arg : Option FilePath) → KeepsSound k (Commands.run_command cmd arg)
  unfolding Commands.run_command
  run_command-Keeps Commands.add arg =
      Keeps-bind IsSound (Commands.argument arg) _ (argument-Keeps arg) add_subtree-Keeps
  run_command-Keeps Commands.verify arg = λ s h. verify_slots-Keeps 0 0 s.cache s h
  run_command-Keeps Commands.list arg = λ s h. h
  run_command-Keeps Commands.quit arg = λ s h. tt
  run_command-Keeps Commands.verbosity arg = set_verbose-Keeps arg
  run_command-Keeps Commands.toggle_dump arg = λ s h. h
  run_command-Keeps Commands.toggle_check arg = λ s h. h
  run_command-Keeps Commands.write arg =
      Keeps-bind IsSound (Commands.argument arg) _ (argument-Keeps arg) write_list-Keeps
  run_command-Keeps Commands.zap arg = zap_command-Keeps arg
  run_command-Keeps Commands.rebuild arg = rebuild_cache-Keeps
  run_command-Keeps Commands.unknown arg = λ s h. h

  run_line-Keeps : (line : List ℕ) → KeepsSound k (Commands.run_line line)
  unfolding Commands.run_line
  run_line-Keeps [] s h = h
  run_line-Keeps (c ∷ cs) s h =
      Keeps-if (c == 0) (pure Commands.silent) (Commands.run_command _ _) (λ t p. p)
        (run_command-Keeps _ _) s h

  line_read-Keeps : (r : Option (List ℕ)) → KeepsSound k (Commands.line_read r)
  line_read-Keeps none s h = tt
  line_read-Keeps (some bytes) s h = run_line-Keeps _ s h

  -- Every command line, also one that is malformed.
  pub execute_command-Keeps : KeepsSound k Commands.execute_command
  unfolding Commands.execute_command
  execute_command-Keeps s h = line_read-Keeps _ _ h

  module _ (roomy : 2 ≤ k.path_max) where
    serve_ready-Keeps :
        (fuel fd : ℕ) (r : Option (Bool × Bool)) → KeepsSound k (Main.serve_ready fuel fd r)
    unfolding Main.serve_ready
    serve_ready-Keeps fuel fd none s h = tt
    serve_ready-Keeps fuel fd (some (a, b)) s h =
        Keeps-bind IsSound (when a (Commands.execute_command >> pure tt)) _
          (Keeps-when IsSound a _ (
            Keeps-bind IsSound Commands.execute_command (λ _. pure tt) execute_command-Keeps
              (λ _ t p. p)))
          (λ _ t p.
            Keeps-if (Main.is_set fd b t.inotify_fd) (Reader.process_inotify_events fuel)
              (pure true) (process_inotify_events-Keeps roomy fuel) (λ u q. q) t p)
          s h

    serve-Keeps : (fuel : ℕ) → KeepsSound k (Main.serve fuel)
    unfolding Main.serve
    serve-Keeps fuel s h = serve_ready-Keeps fuel _ _ _ h

    pub serve_rounds-Keeps : (n fuel : ℕ) → KeepsSound k (Main.serve_rounds n fuel)
    unfolding Main.serve_rounds
    serve_rounds-Keeps zero fuel s h = h
    serve_rounds-Keeps (suc n) fuel s h =
        Keeps-bind IsSound (Main.serve fuel) _ (serve-Keeps fuel)
          (λ b.
            Keeps-if b (Main.serve_rounds n fuel) (pure false) (serve_rounds-Keeps n fuel)
              (λ t p. p))
          s h
