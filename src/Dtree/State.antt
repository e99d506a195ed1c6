-- ===== src/Dtree/State.antt =====
-- The global variables of inotify_dtree.c, and the monad in which its functions run. Messages to
-- the terminal and the log are left out.
use computer_science_notes.Base.{ℕ, Bool, true, false, Option, List, [], ◌∷◌, if◌then◌else◌}
use computer_science_notes.Base.Int.{ℤ}
use computer_science_notes.Dtree.Paths.{FilePath}
use computer_science_notes.Dtree.Kernel.{Kernel, Stat}

-- `struct watch`.
pub record Watch : Type 0 where
  pub wd : ℤ
  pub path : FilePath

-- `wlCache` and `cacheSize`: the size is the length.
abbrev pub Cache : Type 0
Cache = List Watch

pub record Globals (k : Kernel) : Type 0 where
  pub world : k.World
  pub cache : Cache
  -- `rootDirPaths`, `none` for NULL; `numRootDirs` is the length.
  pub root_dir_paths : List (Option FilePath)
  pub root_dir_stat : List Stat
  pub ignore_root_dirs : ℕ
  pub dir_cnt : ℕ
  pub reinit_cnt : ℕ
  pub overflow_cnt : ℕ
  pub inotify_read_cnt : ℕ
  pub verbose_mask : ℤ
  pub check_cache : Bool
  pub dump_cache : Bool
  pub abort_on_cache_problem : Bool
  pub read_buffer_size : ℤ
  -- `logfp != NULL`
  pub has_log : Bool
  -- `inotifyFd` of main(), which the other functions change through a pointer.
  pub inotify_fd : ℕ

-- How a call ends: it returns, the process ends by exit() or abort(), or the C program reads
-- what was never written or writes outside of an array.
pub data Outcome (S : Type 0) (A : Type 0) : Type 0 where
  done : A → S → Outcome S A
  exited : Bool → Outcome S A
  aborted : Outcome S A
  undefined : Outcome S A

abbrev pub M : Kernel → Type 0 → Type 0
M k A = Globals k → Outcome (Globals k) A

abbrev pub ⊤ : Type 0
⊤ = Unit

module _ {S A : Type 0} where
  abbrev pub pure : A → S → Outcome S A
  pure a s = done a s

  abbrev pub gets : (S → A) → S → Outcome S A
  gets f s = done (f s) s

  -- exit(EXIT_SUCCESS) and exit(EXIT_FAILURE).
  abbrev pub exit_success : S → Outcome S A
  exit_success s = exited true

  abbrev pub exit_failure : S → Outcome S A
  exit_failure s = exited false

abbrev pub modify : {S : Type 0} → (S → S) → S → Outcome S ⊤
modify f s = done tt (f s)

infixl 5 ◌>>=◌ ◌>>◌
abbrev pub ◌>>=◌ : {S A B : Type 0} → (S → Outcome S A) → (A → S → Outcome S B) → S → Outcome S B
◌>>=◌ m f s = elim (m s) [
  | done a s' ↦ f a s'
  | exited b ↦ exited b
  | aborted ↦ aborted
  | undefined ↦ undefined
]

abbrev pub ◌>>◌ : {S A B : Type 0} → (S → Outcome S A) → (S → Outcome S B) → S → Outcome S B
m >> n = m >>= λ _. n

abbrev pub when : {S : Type 0} → Bool → (S → Outcome S ⊤) → S → Outcome S ⊤
when b m s = if b then m s else done tt s

-- A read of what was never written.
abbrev pub undefined_read : {S A : Type 0} → S → Outcome S A
undefined_read s = undefined

-- A write outside of an array.
abbrev pub undefined_write : {S A : Type 0} → S → Outcome S A
undefined_write s = undefined

-- A loop that runs its body on every element.
abbrev pub for_each : {S A : Type 0} → (A → S → Outcome S ⊤) → List A → S → Outcome S ⊤
for_each f [] = pure tt
for_each f (x ∷ xs) = f x >> for_each f xs

-- A call of the outside world, which returns a result and a new world.
abbrev pub call : {k : Kernel} {A : Type 0} → (k.World → A × k.World) → M k A
call f s = let r = f s.world in done r.0 (record s { world = r.1 })
