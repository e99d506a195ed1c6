-- ===== src/Bbcp/Main.antt =====
-- bbcp.c: main().
use computer_science_notes.Base.{
  ℕ, zero, suc, true, false, Option, none, some, List, [], ◌∷◌, length, ◌==◌,
}

abbrev pub FileName : Type 0
FileName = List ℕ

-- The calls of the program, on a type of states of the outside. A call that fails returns `none`; a
-- file descriptor or a directory stream is a number.
pub record Calls (World : Type 0) : Type 0 where
  pub open_source : FileName → World → Option ℕ × World
  pub lstat_mode : FileName → World → Option ℕ × World
  pub opendir : FileName → World → Option ℕ × World
  pub dirfd : ℕ → ℕ
  pub open_target : FileName → ℕ → World → Option ℕ × World
  pub openat_target : ℕ → FileName → ℕ → World → Option ℕ × World
  pub read : ℕ → ℕ → World → Option (List ℕ) × World
  pub write : ℕ → List ℕ → World → Option ℕ × World
  pub close : ℕ → World → World
  pub closedir : Option ℕ → World → World

-- How main() ends, where it does.
pub data CopyEnd (World : Type 0) : Type 0 where
  exit_success : World → CopyEnd World
  exit_failure : World → CopyEnd World
  running : World → CopyEnd World

-- BUFSIZE
abbrev pub buf_size : ℕ
buf_size = 1024

module _ {World : Type 0} (k : Calls World) where
  open k use {
    open_source, lstat_mode, opendir, dirfd, open_target, openat_target, read, write, close,
    closedir,
  }

  -- The file descriptors of the source and the target and the stream `dp`, or the end of the program.
  pub data Opened : Type 0 where
    opened : ℕ → ℕ → Option ℕ → World → Opened
    unopened : World → Opened

  -- `fd_target < 0`
  abbrev check_target : ℕ → Option ℕ → Option ℕ × World → Opened
  check_target source dp (none, w) = unopened w
  check_target source dp (some target, w) = opened source target dp w

  open_with : ℕ → ℕ → FileName → FileName → Option ℕ × World → Opened
  open_with source mode from to (none, w) = check_target source none (open_target to mode w)
  open_with source mode from to (some dp, w) =
      check_target source (some dp) (openat_target (dirfd dp) from mode w)

  stat_source : ℕ → FileName → FileName → Option ℕ × World → Opened
  stat_source source from to (none, w) = unopened w
  stat_source source from to (some mode, w) = open_with source mode from to (opendir to w)

  open_first : FileName → FileName → Option ℕ × World → Opened
  open_first from to (none, w) = unopened w
  open_first from to (some source, w) = stat_source source from to (lstat_mode from w)

  unfoldable pub open_both : FileName → FileName → World → Opened
  unfolding open_first stat_source open_with
  open_both from to w = open_first from to (open_source from w)

  -- The loop `while(1)`, with fuel; its result is an exit where it ends by `break`.
  unfoldable pub check_written : ℕ → Option ℕ × World → (World → CopyEnd World) → CopyEnd World
  check_written n (none, w) again = exit_failure w
  check_written n (some m, w) again = elim (m == n) [ true ↦ again w | false ↦ exit_failure w ]

  unfoldable pub check_read : ℕ → Option (List ℕ) × World → (World → CopyEnd World) → CopyEnd World
  check_read target (none, w) again = exit_failure w
  check_read target (some [], w) again = exit_success w
  check_read target (some (b ∷ bs), w) again =
      check_written (length (b ∷ bs)) (write target (b ∷ bs) w) again

  unfoldable pub copy_loop : ℕ → ℕ → ℕ → World → CopyEnd World
  unfolding check_read check_written
  copy_loop zero source target w = running w
  copy_loop (suc f) source target w =
      check_read target (read source buf_size w) (λ w'. copy_loop f source target w')

  -- After the loop everything is closed; closedir() is called also where opendir() failed.
  unfoldable pub close_all : ℕ → ℕ → Option ℕ → CopyEnd World → CopyEnd World
  close_all source target dp (exit_success w) =
      exit_success (closedir dp (close target (close source w)))
  close_all source target dp (exit_failure w) = exit_failure w
  close_all source target dp (running w) = running w

  unfoldable pub run_opened : ℕ → Opened → CopyEnd World
  run_opened fuel (unopened w) = exit_failure w
  run_opened fuel (opened source target dp w) =
      close_all source target dp (copy_loop fuel source target w)

  unfoldable pub bbcp : ℕ → FileName → FileName → World → CopyEnd World
  unfolding run_opened close_all
  bbcp fuel from to w = run_opened fuel (open_both from to w)
