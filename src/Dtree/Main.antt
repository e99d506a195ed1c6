-- ===== src/Dtree/Main.antt =====
-- main() of inotify_dtree.c: the options, the first build of the cache and the loop over select().
use computer_science_notes.Base.{◌&&◌}
use computer_science_notes.Base.{◌==◌}
use computer_science_notes.Base.{Option}
use computer_science_notes.Base.{
  Bool, ℕ, zero, suc, true, false, none, some, List, [], ◌∷◌, if◌then◌else◌,
}
use computer_science_notes.Base.Int.{pos, minus_one}
use computer_science_notes.Dtree.Paths.{FilePath}
use computer_science_notes.Dtree.Kernel.{Kernel}
use computer_science_notes.Dtree.State.{
  Globals, M, ⊤, pure, gets, exit_failure, modify, ◌>>=◌, ◌>>◌, when, call, for_each,
}
use computer_science_notes.Dtree.Roots.{copy_root_dir_paths}
use computer_science_notes.Dtree.Subtree.{reinitialize}
use computer_science_notes.Dtree.Reader.{process_inotify_events}
use computer_science_notes.Dtree.Commands.{execute_command}

-- What getopt() makes of the command line's options; `bad` is one that it does not know.
pub data Flag : Type 0 where
  abort_on_problem : FilePath → Flag
  check : Flag
  dump : Flag
  verbose : FilePath → Flag
  buffer_size : FilePath → Flag
  log_file : FilePath → Flag
  bad : Flag

-- The globals before main() runs, with what it first assigns.
abbrev pub initial : {k : Kernel} → k.World → Globals k
initial w = record {
  world = w;
  cache = [];
  root_dir_paths = [];
  root_dir_stat = [];
  ignore_root_dirs = 0;
  dir_cnt = 0;
  reinit_cnt = 0;
  overflow_cnt = 0;
  inotify_read_cnt = 0;
  verbose_mask = pos 0;
  check_cache = false;
  dump_cache = false;
  abort_on_cache_problem = false;
  read_buffer_size = pos 0;
  has_log = false;
  inotify_fd = 0;
}

-- FD_ISSET(fd, &rfds) behind select(), which was asked about standard input and `asked_fd`; a
-- command may have replaced inotifyFd by another descriptor `fd`.
abbrev pub is_set : ℕ → Bool → ℕ → Bool
is_set asked_fd ready fd = fd == asked_fd && ready

module _ {k : Kernel} where
  -- One round of the getopt() loop.
  unfoldable pub apply_option : Flag → M k ⊤
  apply_option (abort_on_problem file) = modify λ s. record s { abort_on_cache_problem = true }
  apply_option check = modify λ s. record s { check_cache = true }
  apply_option dump = modify λ s. record s { dump_cache = true }
  apply_option (verbose arg) = modify λ s. record s { verbose_mask = k.atoi arg }
  apply_option (buffer_size arg) = modify λ s. record s { read_buffer_size = k.atoi arg }
  apply_option (log_file file) = do
    ok ← call (λ w. k.fopen w file)
    if ok then modify (λ s. record s { has_log = true }) else exit_failure
  apply_option bad = exit_failure

  -- The directories named behind the options, and the first build of the cache.
  unfoldable pub build : List FilePath → M k ⊤
  build [] = exit_failure
  build (d ∷ ds) = do
    copy_root_dir_paths (d ∷ ds)
    fd ← reinitialize minus_one
    modify (λ s. record s { inotify_fd = fd })

  -- main() up to its loop.
  unfoldable pub set_up : List Flag → List FilePath → M k ⊤
  set_up flags dirs = for_each apply_option flags >> build dirs

  -- What select() reports as ready of the descriptor `asked_fd` and standard input is served, with at most `fuel` rounds for the events of a
  -- buffer: whether that was enough.
  unfoldable pub serve_ready : ℕ → ℕ → Option (Bool × Bool) → M k Bool
  serve_ready fuel asked_fd none = exit_failure
  serve_ready fuel asked_fd (some (stdin_ready, inotify_ready)) = do
    when stdin_ready (execute_command >> pure tt)
    fd ← gets (λ s. s.inotify_fd)
    if is_set asked_fd inotify_ready fd then process_inotify_events fuel else pure true

  -- One round of the loop.
  unfoldable pub serve : ℕ → M k Bool
  serve fuel = do
    fd ← gets (λ s. s.inotify_fd)
    r ← call (λ w. k.select w fd)
    serve_ready fuel fd r

  -- The first rounds of the loop, which has no end of its own.
  unfoldable pub serve_rounds : ℕ → ℕ → M k Bool
  serve_rounds zero fuel = pure true
  serve_rounds (suc n) fuel =
      let more = serve_rounds n fuel in serve fuel >>= λ enough. if enough then more else pure false
