-- ===== src/Ls/Width.antt =====
-- The widths that display() of ls.c computes are enough for what printcol() of print.c prints.
use computer_science_notes.Ls.Sheet.{row_count-covers}
use computer_science_notes.Ls.Sheet.{row_count-le}
use computer_science_notes.Ls.Rows.{print_row_lem}
use computer_science_notes.Ls.Sheet.{column_count_pos}
use computer_science_notes.Base.{some}
use computer_science_notes.Ls.Columns.{print_row}
use computer_science_notes.Base.{◌<◌}
use computer_science_notes.Base.{
  ℕ, ◌+◌, ◌*◌, ◌≤◌, ◌≡◌, refl, sym, Bool, true, false, ◌||◌, Bool-cases, inl, inr, List, [], ◌∷◌,
  ◌++◌, length, length-append, if◌then◌else◌, arith,
}
use mathlib.Core.Path.{subst}
use computer_science_notes.Ls.Options.{Settings}
use computer_science_notes.Ls.Escape.{Locale, plain}
use computer_science_notes.Ls.Listed.{
  Listed, printaname, decimal, right_in, howmany, number_in, inode_field, size_field, print_name,
  printpath, print_type, printtype,
}
use computer_science_notes.Ls.Columns.{
  printed, column_count, spread_width, row_count, column_width, size_width,
}
use computer_science_notes.Ls.Measure.{
  Totals, no_totals, needs_stats, mark_all, count_all, number_width, make_display,
}
use computer_science_notes.Ls.Rows.{row_items, line_text, length-row_items}
use computer_science_notes.Ls.Sheet.{spread_fits, column_width_pos}
use computer_science_notes.Ls.Texts.{
  All, All-row_items, All-map, mul-le, column_width-le, FitsIn, length-line_text, Keeps, Keeps-join,
  length-decimal, length-right_in, howmany-le,
}
use computer_science_notes.Ls.Counted.{Counted, Counted-printed}

module _ (k : Locale) (s : Settings) where
  -- The settings under which the length of a name is the number of its columns, and numbers are
  -- plain.
  abbrev pub IsPlain : Type 0
  IsPlain =
      (s.fullpath ≡ false)
      × (s.octal ≡ false)
      × (s.octal_escape ≡ false)
      × (s.nonprint ≡ false)
      × (s.humanize ≡ false)
      × (s.commas ≡ false)

  inode_field-Keeps :
      (t : Totals) (p : Listed)
      → Counted s t p
      → Keeps
          (if s.inode then (make_display s t).s_inode + 1 else 0)
          (inode_field k s (make_display s t).s_inode p)
  unfolding inode_field make_display needs_stats
  inode_field-Keeps t p c = elim (Bool-cases s.inode) [
    | inl e ↦
        rw (e, Keeps)
          (let text : List ℕ = right_in (length (decimal t.maxinode)) (decimal p.ino) in
            let ino : p.ino ≤ t.maxinode = (c.1 (rw e refl)).0 in
            (
              refl,
              omega (
                arith,
                length-append text (32 ∷ []),
                length-right_in (length (decimal t.maxinode)) (decimal p.ino)
                    (length-decimal p.ino t.maxinode ino),
              ),
            ))
    | inr e ↦ rw (e, Keeps) (refl, omega arith)
  ]

  has_stats : s.show_size ≡ true → needs_stats s ≡ true
  unfolding needs_stats
  has_stats e = ground arith

  size_width_lem :
      (t : Totals)
      → IsPlain
      → s.show_size ≡ true
      → size_width s (make_display s t) ≡ length (decimal (howmany t.maxblock s.blocksize))
  unfolding make_display size_width number_width needs_stats
  size_width_lem t plain_ones e = ground arith

  size_field_lem :
      (width : ℕ) (p : Listed)
      → IsPlain
      → s.show_size ≡ true
      → size_field k s width p
        ≡ plain (right_in width (decimal (howmany p.blocks s.blocksize)) ++ 32 ∷ [])
  unfolding size_field number_in
  size_field_lem width p plain_ones e = ground arith

  no_size_field : (width : ℕ) (p : Listed) → s.show_size ≡ false → Keeps 0 (size_field k s width p)
  unfolding size_field
  no_size_field width p e = ground arith

  size_field-Keeps :
      (t : Totals) (p : Listed)
      → IsPlain
      → Counted s t p
      → Keeps
          (if s.show_size then size_width s (make_display s t) + 1 else 0)
          (size_field k s (size_width s (make_display s t)) p)
  size_field-Keeps t p plain_ones c = elim (Bool-cases s.show_size) [
    | inl e ↦
        let width = size_width s (make_display s t) in
        let text : List ℕ = right_in width (decimal (howmany p.blocks s.blocksize)) in
        let whole : size_field k s width p ≡ plain (text ++ 32 ∷ []) =
          size_field_lem width p plain_ones e in
        let blocks : p.blocks ≤ t.maxblock = (c.1 (has_stats e)).1 in
        let fits : length (decimal (howmany p.blocks s.blocksize)) ≤ width = omega (
          arith,
          size_width_lem t plain_ones e,
          length-decimal (howmany p.blocks s.blocksize) (howmany t.maxblock s.blocksize)
              (howmany-le p.blocks t.maxblock s.blocksize blocks),
        ) in
        subst (λ b. Keeps (if b then width + 1 else 0) (size_field k s width p)) (sym e)
          (subst (Keeps (width + 1)) (sym whole)
            (refl, omega (arith, length-append text (32 ∷ []), length-right_in width _ fits)))
    | inr e ↦
        subst
          (λ b.
            Keeps (if b then size_width s (make_display s t) + 1 else 0)
              (size_field k s (size_width s (make_display s t)) p))
          (sym e) (no_size_field (size_width s (make_display s t)) p e)
  ]

  print_name-Keeps :
      (t : Totals) (p : Listed) → IsPlain → Counted s t p → Keeps t.maxlen (print_name k s p)
  unfolding print_name printpath
  print_name-Keeps t p plain_ones c = ground arith

  print_type-Keeps :
      (p : Listed) → Keeps (if s.show_type || s.typedir then 1 else 0) (print_type k s p)
  unfolding print_type printtype
  print_type-Keeps p = ground arith

  column_width_parts :
      (t : Totals)
      → (if s.inode then (make_display s t).s_inode + 1 else 0)
          + (if s.show_size then size_width s (make_display s t) + 1 else 0)
          + t.maxlen
          + (if s.show_type || s.typedir then 1 else 0)
          + 1
        ≡ column_width s (make_display s t)
  unfolding column_width size_width make_display needs_stats
  column_width_parts t = ground arith

  -- What a file takes is less than a column.
  printaname-FitsIn :
      (t : Totals) (p : Listed) (termwidth : ℕ)
      → IsPlain
      → Counted s t p
      → 2 * column_width s (make_display s t) ≤ termwidth
      → FitsIn
          (printaname k s (make_display s t).s_inode (size_width s (make_display s t)))
          (spread_width termwidth (column_width s (make_display s t)))
          p
  unfolding printaname
  printaname-FitsIn t p termwidth plain_ones c room =
      let whole =
        Keeps-join _ _ _ _
          (Keeps-join _ _ _ _
            (Keeps-join _ _ _ _ (inode_field-Keeps t p c) (size_field-Keeps t p plain_ones c))
            (print_name-Keeps t p plain_ones c))
          (print_type-Keeps p) in
      (
        whole.0,
        omega (
          arith,
          whole.1,
          column_width_parts t,
          column_width-le termwidth (column_width s (make_display s t))
              (column_width_pos s (make_display s t)) (omega arith),
        ),
      )

  -- In the settings for plain text, when the terminal has room for two columns: of a list that
  -- display() has measured, print_row() prints every row of printcol()'s sheet, without reading
  -- outside the table, and no longer than the terminal is wide.
  pub rows_fit :
      (is_arguments : Bool) (list : List Listed) (termwidth row : ℕ)
      → IsPlain
      → 2 * column_width s (make_display s (count_all k s is_arguments list no_totals)) ≤ termwidth
      → let d = make_display s (count_all k s is_arguments list no_totals) in
        let array = printed (mark_all k s is_arguments list) in
        let numcols = column_count termwidth (column_width s d) in
        let numrows = row_count (length array) numcols in
        row < numrows
        → (line : List ℕ) × (print_row
              (printaname k s d.s_inode (size_width s d))
              (spread_width termwidth (column_width s d))
              numrows
              array
              numcols
              row
            ≡ some line)
          × (length line ≤ termwidth)
  rows_fit is_arguments list termwidth row plain_ones room on_sheet =
      let t = count_all k s is_arguments list no_totals in
      let d = make_display s t in
      let array = printed (mark_all k s is_arguments list) in
      let numcols = column_count termwidth (column_width s d) in
      let numrows = row_count (length array) numcols in
      let width = spread_width termwidth (column_width s d) in
      let cell = printaname k s d.s_inode (size_width s d) in
      let items = row_items numrows array numcols row in
      let fitting : All (FitsIn cell width) array =
        All-map (λ p c. printaname-FitsIn t p termwidth plain_ones c room) array
          (Counted-printed k s is_arguments list no_totals) in
      let some_column : 0 < numcols =
        column_count_pos termwidth (column_width s d) (column_width_pos s d)
          (omega (arith, column_width_pos s d)) in
      (
        line_text cell width items,
        print_row_lem cell width numrows array numcols row
            (omega (arith, row_count-le (length array) numcols some_column))
            (omega (arith, row_count-covers (length array) numcols some_column)),
        omega (
          arith,
          length-line_text cell width items
              (All-row_items (FitsIn cell width) numrows array numcols row fitting),
          mul-le (length items) numcols width (length-row_items numrows array numcols row),
          spread_fits termwidth (column_width s d),
        ),
      )
