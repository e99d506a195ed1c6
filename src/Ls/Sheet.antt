-- ===== src/Ls/Sheet.antt =====
-- The numbers of rows and columns in printcol() of print.c, and what follows for the sheet.
use computer_science_notes.Base.{
  ℕ, zero, suc, ◌+◌, ◌*◌, ◌/◌, ◌%◌, ◌≤◌, ◌<◌, ◌≡◌, refl, ap, ◌∙◌, Bool, not, ◌||◌, Bool-cases, inl,
  inr, none, some, List, ◌++◌, length, get_elem?, ltb, ◌==◌, if◌then◌else◌, arith,
}
use mathlib.Core.Option
use native.Mathlib.Nat.{
  add-mul-mod_self_right, add-mul-div_right, div-eq_of_lt, mod-eq_of_lt, div-add-mod, mod-lt,
  div-le_self, div-lt_iff_lt-mul, le-div_iff_mul-le, suc-mul, mul_comm, mul-div-le,
}
use computer_science_notes.Ls.Options.{Settings}
use computer_science_notes.Ls.Escape.{Locale, Printed}
use computer_science_notes.Ls.Listed.{Listed, Display, printaname, printtotal}
use computer_science_notes.Ls.Columns.{
  printed, print_rows, printscol, printcol, column_count, spread_width, row_count, column_width,
  size_width,
}
use computer_science_notes.Ls.Rows.{
  row_items, sheet, lines_of, sheet-lines_of, print_rows_lem, row_items-get_elem?,
  row_items-get_elem?_all,
}

-- The rows hold all files.
pub row_count-covers : (num numcols : ℕ) → 0 < numcols → num ≤ numcols * row_count num numcols
unfolding row_count
row_count-covers num numcols h = elim (Bool-cases (num % numcols == 0)) [
  | inl e ↦ rw e (grind (arith, div-add-mod num numcols))
  | inr e ↦ rw e (grind (arith, div-add-mod num numcols, mod-lt num h))
]

-- Each row holds a file.
pub row_count-le : (num numcols : ℕ) → 0 < numcols → row_count num numcols ≤ num
unfolding row_count
row_count-le num zero h = absurd (omega arith)
row_count-le num (suc m) h = elim (Bool-cases (num % suc m == 0)) [
  | inl e ↦ rw e (grind (arith, div-le_self num (suc m)))
  | inr e ↦ rw e (grind (arith, div-add-mod num (suc m), suc-mul m (num / suc m)))
]

pub column_count_pos :
    (termwidth colwidth : ℕ)
    → 0 < colwidth
    → colwidth ≤ termwidth
    → 0 < column_count termwidth colwidth
unfolding column_count
column_count_pos termwidth colwidth h g = (le-div_iff_mul-le h).1 (omega arith)

pub spread_fits :
    (termwidth colwidth : ℕ)
    → column_count termwidth colwidth * spread_width termwidth colwidth ≤ termwidth
unfolding spread_width
spread_fits termwidth colwidth = mul-div-le termwidth (column_count termwidth colwidth)

pub column_width_pos : (s : Settings) (d : Display) → 0 < column_width s d
unfolding column_width
column_width_pos s d = omega arith

positive_factor : (m n : ℕ) → 0 < m * n → 0 < n
positive_factor m zero g = absurd (omega arith)
positive_factor m (suc n) g = omega arith

-- With at least one column, print_rows() prints a line for each row, and the place in the row `row`
-- and the column `col` shows the file number `row + col * rows`, if there is one and the column is
-- on the sheet. So the file number `i` stands in the row `i % rows` and the column `i / rows`, which
-- are on the sheet; and the file that another place shows has another number.
pub print_rows_places :
    {A : Type 0} (cell : A → Printed) (colwidth : ℕ) (array : List A) (numcols i row col : ℕ)
    → 0 < numcols
    → i < length array
    → row < row_count (length array) numcols
    → let numrows = row_count (length array) numcols in
      (items : (ℕ → List A)) × (print_rows cell colwidth numrows array numcols numrows 0
        ≡ some (lines_of cell colwidth items numrows 0))
      × (get_elem? (items row) col
          ≡ (if ltb col numcols then get_elem? array (row + col * numrows) else none))
      × (i % numrows < numrows)
      × (i / numrows < numcols)
      × (get_elem? (items (i % numrows)) (i / numrows) ≡ get_elem? array i)
      × ((row + col * numrows) % numrows ≡ row)
      × ((row + col * numrows) / numrows ≡ col)
print_rows_places cell colwidth array numcols i row col some_column lt on_sheet =
    let numrows = row_count (length array) numcols in
    let covers = row_count-covers (length array) numcols some_column in
    let some_row : 0 < numrows = omega arith in
    let column : i / numrows < numcols = (div-lt_iff_lt-mul some_row).1 (omega arith) in
    let place : i % numrows + i / numrows * numrows ≡ i =
      omega (arith, div-add-mod i numrows, mul_comm numrows (i / numrows)) in
    (
      row_items numrows array numcols,
      print_rows_lem cell colwidth numrows array numcols numrows 0
            (omega (arith, row_count-le (length array) numcols some_column)) (omega arith) covers
          ∙ ap some (sheet-lines_of cell colwidth numrows array numcols numrows 0),
      row_items-get_elem?_all numrows array numcols row col,
      mod-lt i some_row,
      column,
      row_items-get_elem? numrows array numcols (i % numrows) (i / numrows) column
          ∙ ap (get_elem? array) place,
      add-mul-mod_self_right row col numrows ∙ mod-eq_of_lt on_sheet,
      add-mul-div_right row col some_row ∙ omega (arith, div-eq_of_lt on_sheet),
    )

-- What printcol() prints, on every branch: one file to a line where the terminal has no room for two
-- columns or the table cannot be had; else the total and the rows. It never reads outside the table.
pub printcol_lem :
    (k : Locale) (s : Settings) (d : Display) (at_root : Bool) (termwidth : ℕ) (has_table : Bool)
    (ps : List Listed)
    → printcol k s d at_root termwidth has_table ps
      ≡ some (
          if ltb termwidth (2 * column_width s d) || not has_table
          then printscol k s d at_root ps
          else printtotal k s at_root d
            ++ sheet
                (printaname k s d.s_inode (size_width s d))
                (spread_width termwidth (column_width s d))
                (row_count (length (printed ps)) (column_count termwidth (column_width s d)))
                (printed ps)
                (column_count termwidth (column_width s d))
                (row_count (length (printed ps)) (column_count termwidth (column_width s d)))
                0)
unfolding printcol
printcol_lem k s d at_root termwidth has_table ps =
    elim (Bool-cases (ltb termwidth (2 * column_width s d) || not has_table)) [
      | inl narrow ↦ rw narrow refl
      | inr wide ↦
          let room : 0 < column_count termwidth (column_width s d) =
            column_count_pos termwidth (column_width s d) (column_width_pos s d)
              (ground (arith, column_width_pos s d)) in
          rw wide (
            ap (Option.map (λ text. printtotal k s at_root d ++ text)) (
              print_rows_lem _ _ _ (printed ps) _ _ 0
                (omega (
                  arith,
                  row_count-le (length (printed ps)) (column_count termwidth (column_width s d))
                      room,
                ))
                (omega arith)
                (row_count-covers (length (printed ps)) (column_count termwidth (column_width s d))
                  room)))
    ]
