-- ===== src/Dtree/Roots.antt =====
-- The root directories named on the command line of inotify_dtree.c.
use computer_science_notes.Base.{
  ℕ, ◌+◌, Bool, true, false, ◌&&◌, ◌||◌, not, Option, none, some, List, [], ◌∷◌, ◌++◌,
  if◌then◌else◌, ◌==◌, length, find_index, set,
}
use computer_science_notes.Dtree.Paths.{FilePath, str_eq}
use computer_science_notes.Dtree.Kernel.{Kernel, Stat}
use computer_science_notes.Dtree.State.{
  done, exited, M, ⊤, gets, exit_failure, modify, ◌>>=◌, ◌>>◌, when, undefined_read, call, for_each,
}

abbrev pub same_path : FilePath → Option FilePath → Bool
same_path path none = false
same_path path (some root) = str_eq path root

-- findRootDirPath(): the index of the element, or `none` for NULL.
unfoldable pub find_root_dir_path : FilePath → List (Option FilePath) → Option ℕ
find_root_dir_path path roots = find_index (same_path path) roots

-- isRootDirPath()
unfoldable pub is_root_dir_path : FilePath → List (Option FilePath) → Bool
is_root_dir_path path roots = elim (find_root_dir_path path roots) [ none ↦ false | some _ ↦ true ]

-- The same file system object, by i-node number and device.
abbrev pub same_object : Stat → Stat → Bool
same_object a b = a.ino == b.ino && a.dev == b.dev

-- The inner loop of copyRootDirPaths() over the objects before this one.
abbrev pub is_duplicate : Stat → List Stat → Bool
is_duplicate st [] = false
is_duplicate st (x ∷ xs) = same_object st x || is_duplicate st xs

module _ {k : Kernel} where
  -- The first loop of copyRootDirPaths(): every argument is a directory.
  unfoldable pub check_root : FilePath → M k ⊤
  check_root path s = elim (k.lstat s.world path) [
    | none ↦ exited false
    | some st ↦ if st.is_dir then done tt s else exited false
  ]

  -- The end of a round of its second loop, with what lstat() gave: an object that was named before
  -- is refused.
  unfoldable pub store_root : FilePath → Option Stat → M k ⊤
  store_root path none s = exited false
  store_root path (some st) s =
      if is_duplicate st s.root_dir_stat
      then exited false
      else done tt (record s {
        root_dir_paths = s.root_dir_paths ++ some path ∷ [];
        root_dir_stat = s.root_dir_stat ++ st ∷ [];
      })

  -- One round of the second loop.
  unfoldable pub copy_root : FilePath → M k ⊤
  copy_root path = do
    ok ← call (λ w. k.alloc w (length path + 1))
    when (not ok) exit_failure
    s ← gets (λ s. s)
    store_root path (k.lstat s.world path)

  -- The second loop and what follows it.
  unfoldable pub copy_roots : List FilePath → M k ⊤
  copy_roots argv = do
    modify (λ s. record s { root_dir_paths = []; root_dir_stat = [] })
    for_each copy_root argv
    modify (λ s. record s { ignore_root_dirs = 0 })

  -- The two calls of calloc(). Behind the second one the code tests the first one's pointer again,
  -- so a failure goes on to write through NULL.
  unfoldable pub make_arrays : List FilePath → M k ⊤
  make_arrays argv = do
    paths_ok ← call (λ w. k.alloc w (length argv))
    when (not paths_ok) exit_failure
    stats_ok ← call (λ w. k.alloc w (length argv))
    when (not stats_ok) undefined_read

  -- copyRootDirPaths()
  unfoldable pub copy_root_dir_paths : List FilePath → M k ⊤
  copy_root_dir_paths argv = for_each check_root argv >> make_arrays argv >> copy_roots argv

  -- zapRootDirPath()
  unfoldable pub zap_root_dir_path : FilePath → M k ⊤
  zap_root_dir_path path s = elim (find_root_dir_path path s.root_dir_paths) [
    | none ↦ exited false
    | some j ↦
        let t = record s {
          root_dir_paths = set s.root_dir_paths j none;
          ignore_root_dirs = s.ignore_root_dirs + 1;
        } in
        if t.ignore_root_dirs == length t.root_dir_paths then exited true else done tt t
  ]
