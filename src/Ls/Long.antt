-- ===== src/Ls/Long.antt =====
-- printlong() of print.c, with printtime() and printlink().
use computer_science_notes.Base.{
  ℕ, ◌+◌, ◌-◌, ◌*◌, Bool, true, false, ◌&&◌, ◌||◌, Option, none, some, List, [], ◌∷◌, ◌++◌,
  replicate, take, drop, ltb, if◌then◌else◌,
}
use computer_science_notes.Base.Int.{ℤ, pos, negsuc}
use computer_science_notes.Ls.Options.{Settings}
use computer_science_notes.Ls.Choices.{group_only}
use computer_science_notes.Ls.Escape.{Locale, safe_print, printescaped}
use computer_science_notes.Ls.Listed.{
  Listed, Display, FileType, symlink, right_in, left_in, decimal, howmany, to_unsigned, number_in,
  inode_field, print_name, print_type, printtotal,
}
use computer_science_notes.Ls.Measure.{is_device}

-- What printlong() takes from outside: strmode(), ctime(), readlink(), the time of the call, and
-- MAXPATHLEN.
pub record Outside : Type 0 where
  pub strmode : Listed → List ℕ
  pub ctime : ℤ → Option (List ℕ)
  pub readlink : List ℕ → Option (List ℕ)
  pub now : ℤ
  pub maxpathlen : ℕ

abbrev pub six_months : ℕ
six_months = 182 * 86400

-- `a < b + n`
abbrev pub lt_plus : ℤ → ℤ → ℕ → Bool
lt_plus (pos a) (pos b) n = ltb a (b + n)
lt_plus (pos a) (negsuc b) n = ltb (a + b + 1) n
lt_plus (negsuc a) (pos b) n = true
lt_plus (negsuc a) (negsuc b) n = ltb b (a + n)

abbrev pub slice : ℕ → ℕ → List ℕ → List ℕ
slice from to l = take (to - from) (drop from l)

abbrev pub date_text : Option (List ℕ) → List ℕ
date_text none = replicate 24 63
date_text (some text) = text

-- printtime()
unfoldable pub printtime : Settings → Outside → ℤ → List ℕ
printtime s o ftime =
    let longstring = date_text (o.ctime ftime) in
    slice 4 11 longstring
    ++ (if s.sectime
        then slice 11 24 longstring
        else if lt_plus o.now ftime six_months && lt_plus ftime o.now six_months
        then slice 11 16 longstring
        else 32 ∷ slice 20 24 longstring)
    ++ 32 ∷ []

abbrev pub is_link : FileType → Bool
is_link symlink = true
is_link _ = false

module _ (k : Locale) (s : Settings) (o : Outside) where
  -- The target of a link, in the form that the options ask for.
  unfoldable pub print_target : Option (List ℕ) → List ℕ
  print_target none = []
  print_target (some path) =
      (32 ∷ 45 ∷ 62 ∷ 32 ∷ [])
      ++ (if s.octal || s.octal_escape
          then (safe_print k s.octal_escape path).0
          else if s.nonprint
          then (printescaped k path).0
          else path)

  -- printlink(), where `parent` is the fts_accpath of the parent.
  unfoldable pub printlink : List ℕ → Listed → List ℕ
  printlink parent p = print_target (
      o.readlink
        (take o.maxpathlen (if p.entry.at_root then p.entry.name else parent ++ 47 ∷ p.entry.name)))

  unfoldable pub long_blocks : Display → Listed → List ℕ
  long_blocks d p =
      if s.show_size
      then (if s.humanize
          then right_in d.s_block (k.humanized (p.blocks * 512))
          else number_in k s d.s_block (howmany p.blocks s.blocksize))
        ++ 32 ∷ []
      else []

  unfoldable pub long_owner : Display → Listed → List ℕ
  long_owner d p =
      (if group_only s.grouponly then [] else left_in d.s_user p.user ++ 32 ∷ 32 ∷ [])
      ++ left_in d.s_group p.group
      ++ 32 ∷ 32 ∷ (if s.show_flags then left_in d.s_flags p.flags ++ 32 ∷ [] else [])

  unfoldable pub long_size : Display → Listed → List ℕ
  long_size d p =
      if is_device p.kind
      then right_in d.s_major (decimal p.major)
        ++ 44 ∷ 32 ∷ (right_in d.s_minor (decimal p.minor) ++ 32 ∷ [])
      else (if s.humanize
          then right_in d.s_size (k.humanized (to_unsigned p.entry.size))
          else number_in k s d.s_size (to_unsigned p.entry.size))
        ++ 32 ∷ []

  unfoldable pub long_time : Listed → List ℕ
  long_time p = printtime s o (
      if s.accesstime then p.entry.atime else if s.statustime then p.entry.ctime else p.entry.mtime)

  -- A line of printlong().
  unfoldable pub long_line : Display → List ℕ → Listed → List ℕ
  long_line d parent p =
      (inode_field k s d.s_inode p).0
      ++ long_blocks d p
      ++ o.strmode p
      ++ 32
        ∷ (right_in d.s_nlink (decimal p.nlink)
            ++ 32
              ∷ (long_owner d p
                  ++ long_size d p
                  ++ long_time p
                  ++ (print_name k s p).0
                  ++ (print_type k s p).0
                  ++ (if is_link p.kind then printlink parent p else [])
                  ++ 10 ∷ []))

  unfoldable pub long_lines : Display → List ℕ → List Listed → List ℕ
  long_lines d parent [] = []
  long_lines d parent (p ∷ ps) =
      (if p.no_print then [] else long_line d parent p) ++ long_lines d parent ps

  -- printlong()
  unfoldable pub printlong : Display → Bool → List ℕ → List Listed → List ℕ
  printlong d at_root parent ps =
      (if s.leafonly then [] else printtotal k s at_root d) ++ long_lines d parent ps
