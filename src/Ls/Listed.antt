-- ===== src/Ls/Listed.antt =====
-- Printing one file of a list: printaname() of print.c and what it calls; and the total.
use computer_science_notes.Base.{
  ℕ, zero, suc, ◌+◌, ◌-◌, ◌/◌, ◌%◌, ◌^◌, Bool, true, false, not, ◌&&◌, ◌||◌, List, [], ◌∷◌, ◌++◌,
  length, replicate, ltb, if◌then◌else◌,
}
use computer_science_notes.Base.Int.{ℤ, pos, negsuc}
use computer_science_notes.Ls.Compare.{Entry}
use computer_science_notes.Ls.Flags.{Flags}
use computer_science_notes.Ls.Options.{Settings}
use computer_science_notes.Ls.Escape.{Locale, Printed, ◌<+>◌, plain, printescaped, safe_print}

-- The file types that the program tells apart.
pub data FileType : Type 0 where
  directory : FileType
  fifo : FileType
  symlink : FileType
  socket : FileType
  whiteout : FileType
  device : FileType
  regular : FileType

-- An FTSENT with what printing reads of it: `executable` says that one of the bits S_IXUSR, S_IXGRP
-- and S_IXOTH is set, and `no_print` that fts_number is NO_PRINT; `user`, `group` and `flags` are the
-- texts of its NAMES.
pub record Listed : Type 0 where
  pub entry : Entry
  pub path : List ℕ
  pub ino : ℕ
  pub blocks : ℕ
  pub nlink : ℕ
  pub kind : FileType
  pub executable : Bool
  pub major : ℕ
  pub minor : ℕ
  pub uid : ℕ
  pub gid : ℕ
  pub st_flags : Flags
  pub user : List ℕ
  pub group : List ℕ
  pub flags : List ℕ
  pub no_print : Bool

-- DISPLAY, without the list.
pub record Display : Type 0 where
  pub btotal : ℕ
  pub stotal : ℕ
  pub entries : ℕ
  pub maxlen : ℕ
  pub s_block : ℕ
  pub s_flags : ℕ
  pub s_group : ℕ
  pub s_inode : ℕ
  pub s_nlink : ℕ
  pub s_size : ℕ
  pub s_user : ℕ
  pub s_major : ℕ
  pub s_minor : ℕ

-- printf() of "%llu": at most `fuel` digits. A 64-bit number has at most 20.
unfoldable pub digits : ℕ → ℕ → List ℕ
digits zero n = []
digits (suc fuel) n = elim (ltb n 10) [
  | true ↦ (48 + n) ∷ []
  | false ↦ digits fuel (n / 10) ++ (48 + n % 10) ∷ []
]

unfoldable pub decimal : ℕ → List ℕ
decimal n = digits 20 n

-- A field of printf() with a width, at the right and at the left.
unfoldable pub right_in : ℕ → List ℕ → List ℕ
right_in width text = replicate (width - length text) 32 ++ text

unfoldable pub left_in : ℕ → List ℕ → List ℕ
left_in width text = text ++ replicate (width - length text) 32

-- howmany()
unfoldable pub howmany : ℕ → ℕ → ℕ
howmany n unit = (n + (unit - 1)) / unit

-- The conversion of a signed 64-bit number to an unsigned one.
unfoldable pub to_unsigned : ℤ → ℕ
to_unsigned (pos n) = n % 2 ^ 64
to_unsigned (negsuc n) = 2 ^ 64 - 1 - n % 2 ^ 64

abbrev pub is_directory : FileType → Bool
is_directory directory = true
is_directory _ = false

-- printtype()
unfoldable pub printtype : FileType → Bool → Printed
printtype directory executable = plain (47 ∷ [])
printtype fifo executable = plain (124 ∷ [])
printtype symlink executable = plain (64 ∷ [])
printtype socket executable = plain (61 ∷ [])
printtype whiteout executable = plain (37 ∷ [])
printtype device true = plain (42 ∷ [])
printtype device false = plain []
printtype regular true = plain (42 ∷ [])
printtype regular false = plain []

module _ (k : Locale) (s : Settings) where
  -- safe_printpath(), printescapedpath() and printpath()
  unfoldable pub safe_printpath : Listed → Printed
  safe_printpath p =
      (if s.fullpath
        then safe_print k s.octal_escape p.path <+> safe_print k s.octal_escape (47 ∷ [])
        else plain [])
      <+> safe_print k s.octal_escape p.entry.name

  unfoldable pub printescapedpath : Listed → Printed
  printescapedpath p =
      (if s.fullpath then printescaped k p.path <+> printescaped k (47 ∷ []) else plain [])
      <+> printescaped k p.entry.name

  unfoldable pub printpath : Listed → Printed
  printpath p = if s.fullpath then plain (p.path ++ 47 ∷ p.entry.name) else plain p.entry.name

  -- The choice between them, which printlong() makes too.
  unfoldable pub print_name : Listed → Printed
  print_name p =
      if s.octal || s.octal_escape
      then safe_printpath p
      else if s.nonprint
      then printescapedpath p
      else printpath p

  unfoldable pub print_type : Listed → Printed
  print_type p =
      if s.show_type || (s.typedir && is_directory p.kind)
      then printtype p.kind p.executable
      else plain []

  -- The field for a number with or without commas, and for a human.
  unfoldable pub number_in : ℕ → ℕ → List ℕ
  number_in width n = right_in width (if s.commas then k.grouped n else decimal n)

  unfoldable pub inode_field : ℕ → Listed → Printed
  inode_field width p =
      if s.inode then plain (right_in width (decimal p.ino) ++ 32 ∷ []) else plain []

  unfoldable pub size_field : ℕ → Listed → Printed
  size_field width p =
      if s.show_size
      then (if s.humanize
          then plain (right_in width (k.humanized (to_unsigned p.entry.size)) ++ 32 ∷ [])
          else plain (number_in width (howmany p.blocks s.blocksize) ++ 32 ∷ []))
      else plain []

  -- printaname()
  unfoldable pub printaname : ℕ → ℕ → Listed → Printed
  printaname inodefield sizefield p =
      inode_field inodefield p <+> size_field sizefield p <+> print_name p <+> print_type p

  -- printtotal(), where `at_root` is of the first entry of the list.
  unfoldable pub printtotal : Bool → Display → List ℕ
  printtotal at_root d =
      if not at_root && (s.longform || s.show_size)
      then (116 ∷ 111 ∷ 116 ∷ 97 ∷ 108 ∷ 32 ∷ [])
        ++ (if s.humanize
            then k.humanized d.stotal
            else if s.commas
            then k.grouped (howmany d.btotal s.blocksize)
            else decimal (howmany d.btotal s.blocksize))
        ++ 10 ∷ []
      else []
