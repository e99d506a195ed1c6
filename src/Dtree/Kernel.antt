-- ===== src/Dtree/Kernel.antt =====
-- What inotify_dtree.c takes from outside: the system calls, the C library's calls and the limits
-- of <limits.h>, as the parameter of the model. The state of the file system, the descriptors and
-- whatever other processes do are in `World`, which a call may change.
use computer_science_notes.Base.{ℕ, Bool, Option, List}
use computer_science_notes.Base.Int.{ℤ}
use computer_science_notes.Dtree.Paths.{FilePath}

-- The fields of `struct stat` that the program reads.
pub record Stat : Type 0 where
  pub is_dir : Bool
  pub ino : ℕ
  pub dev : ℕ

-- The bits of an event's mask that the program tests.
pub record Mask : Type 0 where
  pub is_dir : Bool
  pub create : Bool
  pub delete_self : Bool
  pub move_self : Bool
  pub moved_from : Bool
  pub moved_to : Bool
  pub ignored : Bool
  pub q_overflow : Bool
  pub unmount : Bool

-- `struct inotify_event`.
pub record Event : Type 0 where
  pub wd : ℤ
  pub mask : Mask
  pub cookie : ℕ
  pub len : ℕ
  pub name : FilePath

-- The result of inotify_add_watch(): a watch descriptor, which is not negative, or -1 with ENOENT
-- or another error.
pub data AddResult : Type 0 where
  added : ℕ → AddResult
  no_entry : AddResult
  add_failed : AddResult

-- The result of a read() from the inotify descriptor: events with their size in bytes, end of file,
-- or -1 with EINTR or another error.
pub data ReadResult : Type 0 where
  got : List Event → ℕ → ReadResult
  end_of_file : ReadResult
  interrupted : ReadResult
  read_failed : ReadResult

pub record Kernel : Type 1 where
  pub World : Type 0
  pub path_max : ℕ
  pub name_max : ℕ
  -- sizeof(struct inotify_event)
  pub event_size : ℕ
  -- Whether realloc(), calloc() or strdup() of so many elements succeeds.
  pub alloc : World → ℕ → Bool × World
  pub lstat : World → FilePath → Option Stat
  -- A new descriptor, or -1.
  pub inotify_init : World → Option ℕ × World
  pub close : World → ℕ → World
  -- The Bool is the IN_MOVE_SELF flag; the other flags are the same in every call.
  pub inotify_add_watch : World → ℕ → FilePath → Bool → AddResult × World
  -- `false` is the -1.
  pub inotify_rm_watch : World → ℕ → ℤ → Bool × World
  -- The files that nftw() hands its function, in order. The Bool tells whether nftw() itself
  -- returns -1 behind them.
  pub nftw : World → FilePath → List (FilePath × Stat) × Bool
  -- The number is the size of the buffer that is given.
  pub read_events : World → ℕ → ℕ → ReadResult × World
  -- A read() from standard input: the bytes, or 0 or -1.
  pub read_line : World → ℕ → Option (List ℕ) × World
  -- sscanf(line, "%c %s\n", &cmd, arg): `none` is an argument that was not converted.
  pub scan_command : List ℕ → ℕ × Option FilePath
  pub atoi : FilePath → ℤ
  -- fopen(path, "w+") succeeds.
  pub fopen : World → FilePath → Bool × World
  -- select() on standard input and the inotify descriptor: which are ready, or -1.
  pub select : World → ℕ → Option (Bool × Bool) × World
