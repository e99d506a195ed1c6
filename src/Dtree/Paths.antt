-- ===== src/Dtree/Paths.antt =====
-- Pathnames, and the C string calls that inotify_dtree.c makes on them. A pathname is the list of
-- its bytes, without the NUL that ends it.
use computer_science_notes.Base.{
  ℕ, ◌-◌, ◌≡◌, refl, ◌≢◌, ◌↔◌, Bool, true, false, ◌&&◌, ◌||◌, List, [], ◌∷◌, ◌++◌, arith, ◌==◌,
  length, get_or, take,
}

abbrev pub FilePath : Type 0
FilePath = List ℕ

abbrev pub slash : ℕ
slash = b'/'

-- `strcmp(a, b) == 0`
abbrev pub str_eq : FilePath → FilePath → Bool
str_eq [] [] = true
str_eq [] (b ∷ bs) = false
str_eq (a ∷ as') [] = false
str_eq (a ∷ as') (b ∷ bs) = a == b && str_eq as' bs

-- `strncmp(prefix, path, strlen(prefix)) == 0`
abbrev pub starts_with : FilePath → FilePath → Bool
starts_with [] path = true
starts_with (a ∷ as') [] = false
starts_with (a ∷ as') (b ∷ bs) = a == b && starts_with as' bs

-- `path[len]`: 0 is the NUL behind the last byte.
abbrev pub char_at : FilePath → ℕ → ℕ
char_at path len = get_or path len 0

-- The test with which rewriteCachedPaths and zapSubtree select the entries of a subtree.
unfoldable pub in_subtree : FilePath → FilePath → Bool
in_subtree root path =
    let len = length root in
    starts_with root path && (char_at path len == slash || char_at path len == 0)

-- `snprintf(buf, size, "%s/%s", prefix, name)` keeps `size - 1` bytes.
unfoldable pub join_path : ℕ → FilePath → FilePath → FilePath
join_path size prefix name = take (size - 1) (prefix ++ slash ∷ name)

-- `strncpy(dst, src, PATH_MAX)` of a string.
unfoldable pub copy_path : ℕ → FilePath → FilePath
copy_path size path = take size path

-- A C string holds no NUL.
abbrev pub NoNul : FilePath → Type 0
NoNul [] = Unit
NoNul (c ∷ cs) = (c ≢ 0) × NoNul cs

-- `path` is the root of a subtree, or a pathname below it: what the test is to decide.
pub data Within (root : FilePath) (path : FilePath) : Type 0 where
  itself : path ≡ root → Within root path
  below : (rest : FilePath) → path ≡ root ++ slash ∷ rest → Within root path

pub str_eq_sound : (a b : FilePath) → str_eq a b ≡ true → a ≡ b
str_eq_sound [] [] h = refl
str_eq_sound [] (b ∷ bs) h = ground arith
str_eq_sound (a ∷ as') [] h = ground arith
str_eq_sound (a ∷ as') (b ∷ bs) h = ground (arith, str_eq_sound as' bs)

pub str_eq_refl : (a : FilePath) → str_eq a a ≡ true
str_eq_refl [] = refl
str_eq_refl (a ∷ as') = ground (arith, str_eq_refl as')

Within-cons :
    (a b : ℕ) {root path : FilePath} → b ≡ a → Within root path → Within (a ∷ root) (b ∷ path)
Within-cons a b e (Within.itself p) = Within.itself (cc)
Within-cons a b e (Within.below rest p) = Within.below rest (cc)

in_subtree-Within :
    (root path : FilePath) → NoNul path → in_subtree root path ≡ true → Within root path
unfolding in_subtree
in_subtree-Within [] [] n h = Within.itself refl
in_subtree-Within [] (b ∷ bs) n h = Within.below bs (ground arith)
in_subtree-Within (a ∷ as') [] n h = absurd (ground arith)
in_subtree-Within (a ∷ as') (b ∷ bs) n h =
    Within-cons a b (ground arith) (in_subtree-Within as' bs n.1 (ground arith))

pub in_subtree_self : (root : FilePath) → in_subtree root root ≡ true
unfolding in_subtree
in_subtree_self [] = refl
in_subtree_self (a ∷ as') = ground (arith, in_subtree_self as')

pub in_subtree-append : (root rest : FilePath) → in_subtree root (root ++ slash ∷ rest) ≡ true
unfolding in_subtree
in_subtree-append [] rest = refl
in_subtree-append (a ∷ as') rest = ground (arith, in_subtree-append as' rest)

Within-in_subtree : (root path : FilePath) → Within root path → in_subtree root path ≡ true
Within-in_subtree root path (Within.itself e) = rw e (in_subtree_self root)
Within-in_subtree root path (Within.below rest e) = rw e (in_subtree-append root rest)

-- The test on a pathname with no NUL in it holds exactly of the root and of what lies below it; a
-- sibling whose name only begins with the root's is not taken.
pub in_subtree_iff :
    (root path : FilePath) → NoNul path → (in_subtree root path ≡ true) ↔ Within root path
in_subtree_iff root path n = (in_subtree-Within root path n, Within-in_subtree root path)
