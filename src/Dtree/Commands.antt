-- ===== src/Dtree/Commands.antt =====
-- The commands that inotify_dtree.c reads from its standard input, its options and main().
use computer_science_notes.Base.{
  ℕ, ◌+◌, ◌-◌, Bool, true, false, ◌||◌, not, Option, none, some, List, [], ◌∷◌, if◌then◌else◌, ◌==◌,
  length, take,
}
use computer_science_notes.Base.Int.{pos, minus_one, ◌==ℤ◌}
use computer_science_notes.Dtree.Paths.{FilePath}
use computer_science_notes.Dtree.Kernel.{Kernel}
use computer_science_notes.Dtree.State.{
  Watch, Cache, done, exited, M, pure, gets, exit_failure, exit_success, modify, ◌>>=◌, ◌>>◌,
  undefined_read, call,
}
use computer_science_notes.Dtree.Cache.{is_used}
use computer_science_notes.Dtree.Slots.{used_entries}
use computer_science_notes.Dtree.Subtree.{watch_subtree, zap_subtree, reinitialize}

-- What a command prints: a listing, the counts of a check, a switch or nothing.
pub data Reply : Type 0 where
  silent : Reply
  listing : List (ℕ × Watch) → Reply
  verified : ℕ → ℕ → Reply
  switched : Bool → Reply
  unrecognized : Reply

pub data Command : Type 0 where
  add verify list quit verbosity toggle_dump toggle_check write zap rebuild unknown : Command

-- The switch of executeCommand() on the command's letter.
unfoldable pub command_of : ℕ → Command
command_of c =
    if c == b'a'
    then add
    else if c == b'c' || c == b'C'
    then verify
    else if c == b'l'
    then list
    else if c == b'q'
    then quit
    else if c == b'v'
    then verbosity
    else if c == b'd'
    then toggle_dump
    else if c == b'x'
    then toggle_check
    else if c == b'w'
    then write
    else if c == b'z'
    then zap
    else if c == b'0'
    then rebuild
    else unknown

abbrev pub max_line : ℕ
max_line = 100

module _ {k : Kernel} where
  -- `arg`, which sscanf() may have left as it was.
  abbrev pub argument : Option FilePath → M k FilePath
  argument none = undefined_read
  argument (some arg) = pure arg

  -- 'a'
  unfoldable pub add_subtree : FilePath → M k Reply
  add_subtree arg = do
    fd ← gets (λ s. s.inotify_fd)
    zap_subtree fd arg
    watch_subtree fd arg
    pure silent

  -- The loop of 'c' and 'C'.
  unfoldable pub verify_slots : ℕ → ℕ → Cache → M k Reply
  verify_slots cnt failures [] s = done (verified cnt failures) s
  verify_slots cnt failures (w ∷ c) s = elim (is_used w) [
    | false ↦ verify_slots cnt failures c s
    | true ↦ elim (k.lstat s.world w.path) [
      | none ↦ verify_slots cnt (failures + 1) c s
      | some st ↦ elim st.is_dir [
        | true ↦ verify_slots (cnt + 1) failures c s
        | false ↦ exited false
      ]
    ]
  ]

  -- 'v'
  unfoldable pub set_verbose : Option FilePath → M k Reply
  set_verbose (some arg) = modify (λ s. record s { verbose_mask = k.atoi arg }) >> pure silent
  set_verbose none = do
    mask ← gets (λ s. s.verbose_mask)
    let off = mask ==ℤ pos 0
    modify (λ s. record s { verbose_mask = if off then pos 1 else pos 0 })
    pure (switched off)

  -- 'w': a stream that fopen() did not open is written and closed all the same.
  unfoldable pub write_list : FilePath → M k Reply
  write_list arg = do
    ok ← call (λ w. k.fopen w arg)
    if ok then gets (λ s. listing (used_entries 0 s.cache)) else undefined_read

  -- '0'
  unfoldable pub rebuild_cache : M k Reply
  rebuild_cache = do
    modify (λ s. record s { world = k.close s.world s.inotify_fd })
    fd ← reinitialize minus_one
    modify (λ s. record s { inotify_fd = fd })
    pure silent

  -- 'z'
  unfoldable pub zap_command : Option FilePath → M k Reply
  zap_command arg = do
    path ← argument arg
    fd ← gets (λ s. s.inotify_fd)
    zap_subtree fd path
    pure silent

  -- The cases of the switch in executeCommand().
  unfoldable pub run_command : Command → Option FilePath → M k Reply
  run_command add arg = argument arg >>= add_subtree
  run_command verify arg = gets (λ s. s.cache) >>= verify_slots 0 0
  run_command list arg = gets (λ s. listing (used_entries 0 s.cache))
  run_command quit arg = exit_success
  run_command verbosity arg = set_verbose arg
  run_command toggle_dump arg = do
    modify (λ s. record s { dump_cache = not s.dump_cache })
    gets (λ s. switched s.dump_cache)
  run_command toggle_check arg = do
    modify (λ s. record s { check_cache = not s.check_cache })
    gets (λ s. switched s.check_cache)
  run_command write arg = argument arg >>= write_list
  run_command zap arg = zap_command arg
  run_command rebuild arg = rebuild_cache
  run_command unknown arg = pure unrecognized

  -- A line that was read, without its last byte.
  unfoldable pub run_line : List ℕ → M k Reply
  run_line [] = pure silent
  run_line (c ∷ cs) =
      let (cmd, arg) = k.scan_command (c ∷ cs) in
      if c == 0 then pure silent else run_command (command_of cmd) arg

  abbrev pub line_read : Option (List ℕ) → M k Reply
  line_read none = exit_failure
  line_read (some bytes) = run_line (take (length bytes - 1) bytes)

  -- executeCommand(): the last byte read is overwritten by the NUL.
  unfoldable pub execute_command : M k Reply
  execute_command = call (λ w. k.read_line w max_line) >>= line_read
