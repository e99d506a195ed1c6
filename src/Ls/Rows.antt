-- ===== src/Ls/Rows.antt =====
-- printcol() of print.c prints every file once, down the columns, and keeps to the terminal's width.
use computer_science_notes.Base.{ltb}
use computer_science_notes.Base.{if◌then◌else◌}
use computer_science_notes.Base.{
  ℕ, zero, suc, ◌+◌, ◌-◌, ◌*◌, ◌≤◌, ◌<◌, ◌≡◌, refl, sym, ap, ◌∙◌, false, Bool-cases, inl, inr, none,
  some, List, [], ◌∷◌, ◌++◌, length, replicate, get_elem?, leb, arith,
}
use mathlib.Core.Option
use native.Mathlib.Decide.{dec_lt}
use native.Mathlib.Nat.{suc-mul}
use computer_science_notes.Ls.Escape.{Printed}
use computer_science_notes.Ls.Columns.{print_cell, print_row, print_rows}

module _ {A : Type 0} where
  pub get_elem?-lt : (l : List A) (i : ℕ) → i < length l → (a : A) × (get_elem? l i ≡ some a)
  get_elem?-lt [] i h = absurd (omega arith)
  get_elem?-lt (a ∷ l) zero h = (a, refl)
  get_elem?-lt (a ∷ l) (suc i) h = get_elem?-lt l i (omega arith)

  pub get_elem?-ge : (l : List A) (i : ℕ) → length l ≤ i → get_elem? l i ≡ none
  get_elem?-ge [] i h = refl
  get_elem?-ge (a ∷ l) zero h = absurd (omega arith)
  get_elem?-ge (a ∷ l) (suc i) h = get_elem?-ge l i (omega arith)

  -- The files of a row: at most `cols` of them, from `base` on, `numrows` apart.
  abbrev pub row_items : ℕ → List A → ℕ → ℕ → List A
  row_items numrows array zero base = []
  row_items numrows array (suc cols) base =
      let rest = row_items numrows array cols (base + numrows) in
      elim (get_elem? array base) [ none ↦ [] | some p ↦ p ∷ rest ]

  pub row_items_past :
      (numrows : ℕ) (array : List A) (cols base : ℕ)
      → length array ≤ base
      → row_items numrows array cols base ≡ []
  row_items_past numrows array zero base h = refl
  row_items_past numrows array (suc cols) base h = rw (get_elem?-ge array base h, row_items) refl

  pub row_items_cons :
      (numrows : ℕ) (array : List A) (cols base : ℕ) (p : A)
      → get_elem? array base ≡ some p
      → row_items numrows array (suc cols) base ≡ p ∷ row_items numrows array cols (base + numrows)
  row_items_cons numrows array cols base p e = rw (e, row_items) refl

  row_items_pos :
      (numrows : ℕ) (array : List A) (cols base : ℕ)
      → base < length array
      → length array ≤ base + cols * numrows
      → (p : A) × (rest : List A) × (row_items numrows array cols base ≡ p ∷ rest)
  row_items_pos numrows array zero base h g = absurd (grind arith)
  row_items_pos numrows array (suc cols) base h g =
      let (p, e) = get_elem?-lt array base h in (p, _, row_items_cons numrows array cols base p e)

  module _ (cell : A → Printed) where
    -- A row as it is printed, each file but the last one filled up to the width of a column.
    abbrev pub line_text : ℕ → List A → List ℕ
    line_text colwidth [] = []
    line_text colwidth (p ∷ []) = (cell p).0
    line_text colwidth (p ∷ q ∷ ps) =
        (cell p).0 ++ replicate (colwidth - (cell p).1) 32 ++ line_text colwidth (q ∷ ps)

    -- So many lines, from `row` on, of the files that `items` gives for each.
    abbrev pub lines_of : ℕ → (ℕ → List A) → ℕ → ℕ → List ℕ
    lines_of colwidth items zero row = []
    lines_of colwidth items (suc rows) row =
        line_text colwidth (items row) ++ 10 ∷ lines_of colwidth items rows (row + 1)

    -- The rows from `row` on.
    abbrev pub sheet : ℕ → ℕ → List A → ℕ → ℕ → ℕ → List ℕ
    sheet colwidth numrows array numcols zero row = []
    sheet colwidth numrows array numcols (suc rows) row =
        line_text colwidth (row_items numrows array numcols row)
        ++ 10 ∷ sheet colwidth numrows array numcols rows (row + 1)

    pub print_row_lem :
        (colwidth numrows : ℕ) (array : List A) (cols base : ℕ)
        → base < length array
        → length array ≤ base + cols * numrows
        → print_row cell colwidth numrows array cols base
          ≡ some (line_text colwidth (row_items numrows array cols base))
    unfolding print_row print_cell
    print_row_lem colwidth numrows array zero base h g = absurd (grind arith)
    print_row_lem colwidth numrows array (suc cols) base h g =
        let (p, e) = get_elem?-lt array base h in
        let rest = print_row cell colwidth numrows array cols (base + numrows) in
        let enough : length array ≤ base + numrows + cols * numrows =
          omega (arith, suc-mul cols numrows) in
        elim (Bool-cases (leb (length array) (base + numrows))) [
          | inl over ↦
              ap (print_cell cell colwidth (leb (length array) (base + numrows)) rest) e
              ∙ ap (λ b. print_cell cell colwidth b rest (some p)) over
              ∙ ap (λ l. some (line_text colwidth (p ∷ l)))
                  (sym (row_items_past numrows array cols (base + numrows) (ground arith)))
              ∙ ap (λ l. some (line_text colwidth l))
                  (sym (row_items_cons numrows array cols base p e))
          | inr more ↦
              let further : base + numrows < length array = ground arith in
              let (q, qs, f) = row_items_pos numrows array cols (base + numrows) further enough in
              ap (print_cell cell colwidth (leb (length array) (base + numrows)) rest) e
              ∙ ap (λ b. print_cell cell colwidth b rest (some p)) more
              ∙ ap (λ r. print_cell cell colwidth false r (some p))
                  (print_row_lem colwidth numrows array cols (base + numrows) further enough)
              ∙ ap (λ l. print_cell cell colwidth false (some (line_text colwidth l)) (some p)) f
              ∙ ap (λ l. some (line_text colwidth (p ∷ l))) (sym f)
              ∙ ap (λ l. some (line_text colwidth l))
                  (sym (row_items_cons numrows array cols base p e))
        ]

    pub print_rows_lem :
        (colwidth numrows : ℕ) (array : List A) (numcols rows row : ℕ)
        → row + rows ≤ length array
        → row + rows ≤ numrows
        → length array ≤ numcols * numrows
        → print_rows cell colwidth numrows array numcols rows row
          ≡ some (sheet colwidth numrows array numcols rows row)
    unfolding print_rows
    print_rows_lem colwidth numrows array numcols zero row h n g = refl
    print_rows_lem colwidth numrows array numcols (suc rows) row h n g =
        rw
          (print_row_lem colwidth numrows array numcols row (omega arith) (omega arith), print_rows)
          (ap
            (Option.map
              (λ text. line_text colwidth (row_items numrows array numcols row) ++ 10 ∷ text))
            (print_rows_lem colwidth numrows array numcols rows (row + 1) (omega arith)
              (omega arith) g))

    pub sheet-lines_of :
        (colwidth numrows : ℕ) (array : List A) (numcols rows row : ℕ)
        → sheet colwidth numrows array numcols rows row
          ≡ lines_of colwidth (row_items numrows array numcols) rows row
    sheet-lines_of colwidth numrows array numcols zero row = refl
    sheet-lines_of colwidth numrows array numcols (suc rows) row =
        ap (λ l. line_text colwidth (row_items numrows array numcols row) ++ 10 ∷ l)
          (sheet-lines_of colwidth numrows array numcols rows (row + 1))

  -- The file at a place of a row.
  pub row_items-get_elem? :
      (numrows : ℕ) (array : List A) (cols base col : ℕ)
      → col < cols
      → get_elem? (row_items numrows array cols base) col ≡ get_elem? array (base + col * numrows)
  row_items-get_elem? numrows array zero base col h = absurd (omega arith)
  row_items-get_elem? numrows array (suc cols) base col h = elim (dec_lt base (length array)) [
    | no past ↦
        ap (λ l. get_elem? l col) (row_items_past numrows array (suc cols) base (omega arith))
        ∙ sym (get_elem?-ge array (base + col * numrows) (omega arith))
    | yes inside ↦
        let (p, e) = get_elem?-lt array base inside in
        ap (λ l. get_elem? l col) (row_items_cons numrows array cols base p e)
        ∙ at_place (row_items-get_elem? numrows array cols (base + numrows)) p e col h
  ]
    where
      at_place :
          ((c : ℕ)
            → c < cols
            → get_elem? (row_items numrows array cols (base + numrows)) c
              ≡ get_elem? array (base + numrows + c * numrows))
          → (p : A) → get_elem? array base ≡ some p
          → (col : ℕ) → col < suc cols
          → get_elem? (p ∷ row_items numrows array cols (base + numrows)) col
            ≡ get_elem? array (base + col * numrows)
      at_place further p e zero h =
          let same : base ≡ base + 0 * numrows = omega arith in sym e ∙ ap (get_elem? array) same
      at_place further p e (suc c) h =
          let same : base + numrows + c * numrows ≡ base + suc c * numrows =
            omega (arith, suc-mul c numrows) in
          further c (omega arith) ∙ ap (get_elem? array) same

  pub length-row_items :
      (numrows : ℕ) (array : List A) (cols base : ℕ)
      → length (row_items numrows array cols base) ≤ cols
  length-row_items numrows array zero base = omega arith
  length-row_items numrows array (suc cols) base =
      ground (arith, length-row_items numrows array cols (base + numrows))

  -- The same at any place, also behind the last column.
  pub row_items-get_elem?_all :
      (numrows : ℕ) (array : List A) (cols base col : ℕ)
      → get_elem? (row_items numrows array cols base) col
        ≡ (if ltb col cols then get_elem? array (base + col * numrows) else none)
  row_items-get_elem?_all numrows array cols base col = elim (Bool-cases (ltb col cols)) [
    | inl e ↦ rw e (row_items-get_elem? numrows array cols base col (ground arith))
    | inr e ↦ rw e (
        get_elem?-ge (row_items numrows array cols base) col
          (ground (arith, length-row_items numrows array cols base)))
  ]
