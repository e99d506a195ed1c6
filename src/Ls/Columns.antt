-- ===== src/Ls/Columns.antt =====
-- The layouts of print.c: printscol(), printcol(), printacol() and printstream().
use computer_science_notes.Base.{
  ℕ, zero, suc, ◌+◌, ◌-◌, ◌*◌, ◌/◌, ◌%◌, Bool, not, ◌||◌, Option, none, some, List, [], ◌∷◌, ◌++◌,
  length, replicate, get_elem?, ltb, leb, ◌==◌, if◌then◌else◌,
}
use mathlib.Core.Option
use computer_science_notes.Ls.Options.{Settings}
use computer_science_notes.Ls.Escape.{Locale, Printed}
use computer_science_notes.Ls.Listed.{Listed, Display, printaname, printtotal}

-- The files of a list that are printed.
unfoldable pub printed : List Listed → List Listed
printed [] = []
printed (p ∷ ps) = if p.no_print then printed ps else p ∷ printed ps

module _ {A : Type 0} (cell : A → Printed) where
  -- The loop of printscol().
  unfoldable pub one_to_a_line : List A → List ℕ
  one_to_a_line [] = []
  one_to_a_line (p ∷ ps) = (cell p).0 ++ 10 ∷ one_to_a_line ps

  -- What printcol() does in a row with array[base], where `rest` is the rest of the row.
  unfoldable pub print_cell : ℕ → Bool → Option (List ℕ) → Option A → Option (List ℕ)
  print_cell colwidth is_last rest none = none
  print_cell colwidth is_last rest (some p) =
      if is_last
      then some (cell p).0
      else Option.map (λ text. (cell p).0 ++ replicate (colwidth - (cell p).1) 32 ++ text) rest

  -- The loop over the columns of a row, with the columns left: `none` is a read outside the array.
  unfoldable pub print_row : ℕ → ℕ → List A → ℕ → ℕ → Option (List ℕ)
  print_row colwidth numrows array zero base = some []
  print_row colwidth numrows array (suc cols) base =
      print_cell colwidth (leb (length array) (base + numrows))
        (print_row colwidth numrows array cols (base + numrows)) (get_elem? array base)

  -- The loop over the rows, with the rows left.
  unfoldable pub print_rows : ℕ → ℕ → List A → ℕ → ℕ → ℕ → Option (List ℕ)
  print_rows colwidth numrows array numcols zero row = some []
  print_rows colwidth numrows array numcols (suc rows) row =
      elim (print_row colwidth numrows array numcols row) [
        | none ↦ none
        | some line ↦
            Option.map (λ text. line ++ 10 ∷ text)
              (print_rows colwidth numrows array numcols rows (row + 1))
      ]

  -- The loop of printacol(), with the files printed in the row.
  unfoldable pub print_across : ℕ → ℕ → ℕ → List A → List ℕ
  print_across colwidth numcols col [] = []
  print_across colwidth numcols col (p ∷ ps) =
      let next = print_across colwidth numcols ((if leb numcols col then 0 else col) + 1) ps in
      (if leb numcols col then 10 ∷ [] else [])
      ++ (cell p).0
      ++ replicate (colwidth - (cell p).1) 32
      ++ next

  -- The part of printstream()'s loop before a file: the separator and the column behind it, where
  -- `width` is the width expected of the file.
  unfoldable pub separate : ℕ → ℕ → ℕ → Printed
  separate termwidth width zero = ([], zero)
  separate termwidth width (suc col) =
      if leb termwidth (suc col + 1 + 1 + width)
      then (44 ∷ 10 ∷ [], 0)
      else (44 ∷ 32 ∷ [], suc col + 1 + 1)

  -- The loop of printstream(), with the width that it expects of a file and the column.
  unfoldable pub print_stream : ℕ → (A → ℕ) → ℕ → List A → List ℕ
  print_stream termwidth width col [] = []
  print_stream termwidth width col (p ∷ ps) =
      let (sep, at) = separate termwidth (width p) col in
      sep ++ (cell p).0 ++ print_stream termwidth width (at + (cell p).1) ps

-- `numcols = termwidth / colwidth; colwidth = termwidth / numcols;`
unfoldable pub column_count : ℕ → ℕ → ℕ
column_count termwidth colwidth = termwidth / colwidth

unfoldable pub spread_width : ℕ → ℕ → ℕ
spread_width termwidth colwidth = termwidth / column_count termwidth colwidth

-- `numrows = num / numcols; if (num % numcols) ++numrows;`
unfoldable pub row_count : ℕ → ℕ → ℕ
row_count num numcols = num / numcols + (if num % numcols == 0 then 0 else 1)

module _ (s : Settings) (d : Display) where
  -- What printcol() and printacol() add to the longest name.
  unfoldable pub column_width : ℕ
  column_width =
      d.maxlen
      + (if s.inode then d.s_inode + 1 else 0)
      + (if s.show_size then (if s.humanize then d.s_size + 1 else d.s_block + 1) else 0)
      + (if s.show_type || s.typedir then 1 else 0)
      + 1

  -- `extwidth` of printstream()
  unfoldable pub stream_width : ℕ
  stream_width =
      (if s.inode then d.s_inode + 1 else 0)
      + (if s.show_size then (if s.humanize then d.s_size + 1 else d.s_block + 1) else 0)
      + (if s.show_type then 1 else 0)

  unfoldable pub size_width : ℕ
  size_width = if s.humanize then d.s_size else d.s_block

module _ (k : Locale) (s : Settings) (d : Display) (at_root : Bool) where
  unfoldable pub printscol : List Listed → List ℕ
  printscol ps = one_to_a_line (printaname k s d.s_inode d.s_block) (printed ps)

  -- printcol(), where `has_table` says that realloc() has not failed; `none` is a read outside the
  -- table.
  unfoldable pub printcol : ℕ → Bool → List Listed → Option (List ℕ)
  printcol termwidth has_table ps =
      if ltb termwidth (2 * column_width s d) || not has_table
      then some (printscol ps)
      else (let array = printed ps in
          let numcols = column_count termwidth (column_width s d) in
          let numrows = row_count (length array) numcols in
          Option.map (λ text. printtotal k s at_root d ++ text)
            (print_rows (printaname k s d.s_inode (size_width s d))
              (spread_width termwidth (column_width s d)) numrows array numcols numrows 0))

  -- printacol()
  unfoldable pub printacol : ℕ → List Listed → List ℕ
  printacol termwidth ps =
      if ltb termwidth (2 * column_width s d)
      then printscol ps
      else printtotal k s at_root d
        ++ print_across (printaname k s d.s_inode (size_width s d))
            (spread_width termwidth (column_width s d)) (column_count termwidth (column_width s d))
            0 (printed ps)
        ++ 10 ∷ []

  -- printstream()
  unfoldable pub printstream : ℕ → List Listed → List ℕ
  printstream termwidth ps =
      print_stream (printaname k s d.s_inode (size_width s d)) termwidth
        (λ p. stream_width s d + length p.entry.name) 0 (printed ps)
      ++ 10 ∷ []
