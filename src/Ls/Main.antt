-- ===== src/Ls/Main.antt =====
-- ls_main() of ls.c around the loop over the options: the width of the terminal, the size of a block,
-- and the call of traverse(). getopt(), isatty(), ioctl(), getuid(), getenv(), atoi(), getbsize() and
-- fts are parameters.
use computer_science_notes.Ls.Show.{Setup}
use computer_science_notes.Base.{
  ℕ, ◌/◌, Bool, ◌||◌, Option, none, some, List, [], ◌∷◌, ltb, if◌then◌else◌,
}
use mathlib.Core.Option
use computer_science_notes.Base.Int.{ℤ, pos, negsuc}
use computer_science_notes.Ls.Options.{Letter, Settings, defaults, apply_letters}
use computer_science_notes.Ls.Escape.{Locale}
use computer_science_notes.Ls.Listed.{Listed}
use computer_science_notes.Ls.Long.{Outside}
use computer_science_notes.Ls.Show.{Progress, Traversal, traverse}

-- What ls_main() asks for: isatty(), the ws_col that ioctl() gives, whether getuid() gives 0, the
-- variable COLUMNS with atoi(), and the size that getbsize() gives.
pub record Surroundings : Type 0 where
  pub is_tty : Bool
  pub ws_col : Option ℕ
  pub is_root : Bool
  pub columns : Option (List ℕ)
  pub atoi : List ℕ → ℤ
  pub getbsize : ℕ

-- termwidth before the loop over the options.
unfoldable pub window_width : Surroundings → ℕ
window_width e = if e.is_tty then in_window e.ws_col else 80
  where
    in_window : Option ℕ → ℕ
    in_window none = 80
    in_window (some n) = if ltb 0 n then n else 80

-- A width below 0 is a width of 0: each is less than any column.
abbrev from_int : ℤ → ℕ
from_int (pos n) = n
from_int (negsuc n) = 0

-- termwidth behind it.
unfoldable pub terminal_width : Surroundings → Settings → ℕ
terminal_width e s =
    if s.column || s.columnacross || s.stream then in_columns e.columns else window_width e
  where
    in_columns : Option (List ℕ) → ℕ
    in_columns none = window_width e
    in_columns (some text) = from_int (e.atoi text)

-- `if (f_inode || f_longform || f_size)`: the size of a block, in units of 512 bytes.
unfoldable pub settle_blocksize : ℕ → Settings → Settings
settle_blocksize getbsize s =
    if s.inode || s.longform || s.show_size
    then record s { blocksize = (if s.kflag then s.blocksize else getbsize) / 512 }
    else s

-- The letters that getopt() gives, where `none` is one that it does not know.
unfoldable pub known_letters : List (Option Letter) → Option (List Letter)
known_letters [] = some []
known_letters (none ∷ ls) = none
known_letters (some l ∷ ls) = Option.map (λ rest. l ∷ rest) (known_letters ls)

-- How ls ends: by usage(), which exits with EXIT_FAILURE, or at the end of its output, with the exit
-- value of its progress.
pub data Ending : Type 0 where
  usage_shown : Ending
  listed : Progress → Ending

module _ (k : Locale) (o : Outside) (e : Surroundings) (has_table : Bool) (t : Traversal) where
  -- What ls_main() has settled before it calls traverse().
  unfoldable pub setup_of : List Letter → Setup
  setup_of ls =
      let s = apply_letters ls (defaults e.is_tty e.is_root) in
      record {
        locale = k;
        settings = settle_blocksize e.getbsize s;
        outside = o;
        termwidth = terminal_width e s;
        has_table = has_table;
      }

  -- The call of traverse() behind the options.
  unfoldable pub list_files :
      ℕ → Bool → List Listed → t.State → Option (List Letter) → Option Ending
  list_files fuel several arguments st none = some usage_shown
  list_files fuel several arguments st (some ls) =
      Option.map listed (traverse (setup_of ls) t several fuel arguments st)

  -- ls_main(), where `several` says that there is more than one argument, and fts has opened the
  -- `arguments`, or "." where there is none, in the state `st`.
  unfoldable pub ls_main : ℕ → List (Option Letter) → Bool → List Listed → t.State → Option Ending
  ls_main fuel letters several arguments st =
      list_files fuel several arguments st (known_letters letters)
