-- ===== src/Ls/Compare.antt =====
-- The comparison functions of cmp.c, and their choice and use in ls.c: the selection of the sort
-- function in ls_main() and mastercmp().
use computer_science_notes.Base.{
  ℕ, Bool, true, false, List, [], ◌∷◌, if◌then◌else◌, ltb, ◌==◌, not, ◌&&◌, ◌||◌,
}
use computer_science_notes.Base.Int.{ℤ, pos, negsuc, minus_one}

-- `a < b` on signed integers.
abbrev pub ltz : ℤ → ℤ → Bool
ltz (pos a) (pos b) = ltb a b
ltz (pos a) (negsuc b) = false
ltz (negsuc a) (pos b) = true
ltz (negsuc a) (negsuc b) = ltb b a

-- strcmp() on the bytes of two strings, of which C fixes the sign.
unfoldable pub strcmp : List ℕ → List ℕ → ℤ
strcmp [] [] = pos 0
strcmp [] (b ∷ ys) = minus_one
strcmp (a ∷ xs) [] = pos 1
strcmp (a ∷ xs) (b ∷ ys) =
    let rest = strcmp xs ys in if ltb a b then minus_one else if ltb b a then pos 1 else rest

-- The values of fts_info that are tested, and the others.
pub data Info : Type 0 where
  fts_d : Info
  fts_err : Info
  fts_ns : Info
  fts_other : ℕ → Info

abbrev pub same_info : Info → Info → Bool
same_info fts_d fts_d = true
same_info fts_err fts_err = true
same_info fts_ns fts_ns = true
same_info (fts_other i) (fts_other j) = i == j
same_info _ _ = false

-- What is compared of an FTSENT and its fts_statp; `at_root` says that fts_level is FTS_ROOTLEVEL.
pub record Entry : Type 0 where
  pub name : List ℕ
  pub info : Info
  pub at_root : Bool
  pub mtime : ℤ
  pub mtimensec : ℤ
  pub atime : ℤ
  pub atimensec : ℤ
  pub ctime : ℤ
  pub ctimensec : ℤ
  pub size : ℤ

unfoldable pub namecmp : Entry → Entry → ℤ
namecmp a b = strcmp a.name b.name

unfoldable pub revnamecmp : Entry → Entry → ℤ
revnamecmp a b = strcmp b.name a.name

-- 1 where `b`'s value is the greater, -1 where it is the smaller one, else `last`.
unfoldable pub by_key : ℤ → ℤ → ℤ → ℤ
by_key a b last = if ltz a b then pos 1 else if ltz b a then minus_one else last

-- The same with the signs changed.
unfoldable pub by_key_reversed : ℤ → ℤ → ℤ → ℤ
by_key_reversed a b last = if ltz a b then minus_one else if ltz b a then pos 1 else last

unfoldable pub modcmp : Entry → Entry → ℤ
modcmp a b = by_key a.mtime b.mtime (by_key a.mtimensec b.mtimensec (namecmp a b))

unfoldable pub revmodcmp : Entry → Entry → ℤ
revmodcmp a b =
    by_key_reversed a.mtime b.mtime (by_key_reversed a.mtimensec b.mtimensec (revnamecmp a b))

unfoldable pub acccmp : Entry → Entry → ℤ
acccmp a b = by_key a.atime b.atime (by_key a.atimensec b.atimensec (namecmp a b))

unfoldable pub revacccmp : Entry → Entry → ℤ
revacccmp a b =
    by_key_reversed a.atime b.atime (by_key_reversed a.atimensec b.atimensec (revnamecmp a b))

unfoldable pub statcmp : Entry → Entry → ℤ
statcmp a b = by_key a.ctime b.ctime (by_key a.ctimensec b.ctimensec (namecmp a b))

unfoldable pub revstatcmp : Entry → Entry → ℤ
revstatcmp a b =
    by_key_reversed a.ctime b.ctime (by_key_reversed a.ctimensec b.ctimensec (revnamecmp a b))

unfoldable pub sizecmp : Entry → Entry → ℤ
sizecmp a b = by_key a.size b.size (namecmp a b)

unfoldable pub revsizecmp : Entry → Entry → ℤ
revsizecmp a b = by_key_reversed a.size b.size (revnamecmp a b)

-- The values of `sortkey`.
pub data SortKey : Type 0 where
  by_name : SortKey
  by_size : SortKey
  by_time : SortKey

-- The options that choose the order.
pub record Options : Type 0 where
  pub reversesort : Bool
  pub sortkey : SortKey
  pub accesstime : Bool
  pub statustime : Bool
  pub listdir : Bool

-- The two switches on `sortkey` in ls_main(): without and with -r.
unfoldable pub forward_function : SortKey → Bool → Bool → Entry → Entry → ℤ
forward_function by_name accesstime statustime = namecmp
forward_function by_size accesstime statustime = sizecmp
forward_function by_time true statustime = acccmp
forward_function by_time false true = statcmp
forward_function by_time false false = modcmp

unfoldable pub reverse_function : SortKey → Bool → Bool → Entry → Entry → ℤ
reverse_function by_name accesstime statustime = revnamecmp
reverse_function by_size accesstime statustime = revsizecmp
reverse_function by_time true statustime = revacccmp
reverse_function by_time false true = revstatcmp
reverse_function by_time false false = revmodcmp

-- The function that sortfcn points to.
unfoldable pub sortfcn : Options → Entry → Entry → ℤ
sortfcn o =
    if o.reversesort
    then reverse_function o.sortkey o.accesstime o.statustime
    else forward_function o.sortkey o.accesstime o.statustime

-- The part of mastercmp() for arguments that are directories.
unfoldable pub directories_apart : Options → Entry → Entry → ℤ
directories_apart o a b =
    if not (same_info a.info b.info) && not o.listdir && a.at_root
    then (if same_info a.info fts_d
        then pos 1
        else if same_info b.info fts_d
        then minus_one
        else sortfcn o a b)
    else sortfcn o a b

-- mastercmp()
unfoldable pub mastercmp : Options → Entry → Entry → ℤ
mastercmp o a b =
    if same_info a.info fts_err
    then pos 0
    else if same_info b.info fts_err
    then pos 0
    else if same_info a.info fts_ns || same_info b.info fts_ns
    then (if not (same_info b.info fts_ns)
        then pos 1
        else if not (same_info a.info fts_ns)
        then minus_one
        else namecmp a b)
    else directories_apart o a b
