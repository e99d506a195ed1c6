-- ===== src/Ls/Texts.antt =====
-- How long the texts are that print.c prints: fields, numbers and rows.
use computer_science_notes.Base.{
  ℕ, zero, suc, ◌+◌, ◌-◌, ◌*◌, ◌/◌, ◌%◌, ◌≤◌, ◌<◌, ◌≡◌, refl, Option-cases, inl, inr, some, List,
  [], ◌∷◌, ◌++◌, length, length-append, length-replicate, replicate, get_elem?, arith,
}
use mathlib.Core.Path.{subst}
use native.Mathlib.Nat.{div-zero, div-mul-le_self, le-div_iff_mul-le, suc-mul, mul_comm}
use computer_science_notes.Ls.Escape.{Printed, ◌<+>◌}
use computer_science_notes.Ls.Listed.{digits, decimal, right_in, howmany}
use computer_science_notes.Ls.Columns.{column_count, spread_width}
use computer_science_notes.Ls.Rows.{row_items, line_text}
use computer_science_notes.Ls.Sheet.{column_count_pos}

abbrev pub All : {A : Type 0} → (A → Type 0) → List A → Type 0
All P [] = Unit
All P (a ∷ l) = P a × All P l

module _ {A : Type 0} (P : A → Type 0) where
  pub All-get_elem? : (l : List A) (i : ℕ) (a : A) → All P l → get_elem? l i ≡ some a → P a
  All-get_elem? [] i a h e = absurd (ground arith)
  All-get_elem? (b ∷ l) zero a h e = let same : b ≡ a = cc in subst P same h.0
  All-get_elem? (b ∷ l) (suc i) a h e = All-get_elem? l i a h.1 e

  pub All-row_items :
      (numrows : ℕ) (array : List A) (cols base : ℕ)
      → All P array
      → All P (row_items numrows array cols base)
  All-row_items numrows array zero base h = tt
  All-row_items numrows array (suc cols) base h = elim (Option-cases (get_elem? array base)) [
    | inl e ↦ rw (e, row_items) tt
    | inr (p, e) ↦
        rw (e, row_items)
          (All-get_elem? array base p h e, All-row_items numrows array cols (base + numrows) h)
  ]

pub All-map :
    {A : Type 0} {P Q : A → Type 0} → ((a : A) → P a → Q a) → (l : List A) → All P l → All Q l
All-map f [] h = tt
All-map f (a ∷ l) h = (f a h.0, All-map f l h.1)

pub mul-le : (a b c : ℕ) → a ≤ b → a * c ≤ b * c
mul-le a b c h = grind arith

-- Columns are not made narrower.
pub column_width-le :
    (termwidth colwidth : ℕ)
    → 0 < colwidth
    → colwidth ≤ termwidth
    → colwidth ≤ spread_width termwidth colwidth
unfolding spread_width column_count
column_width-le termwidth colwidth h g =
    (le-div_iff_mul-le (column_count_pos termwidth colwidth h g)).1
      (omega (arith, div-mul-le_self termwidth colwidth, mul_comm colwidth (termwidth / colwidth)))

-- A file's text is as long as its printing says, and no longer than a column.
abbrev pub FitsIn : {A : Type 0} → (A → Printed) → ℕ → A → Type 0
FitsIn cell width p = ((cell p).1 ≡ length (cell p).0) × ((cell p).1 ≤ width)

pub length-line_text :
    {A : Type 0} (cell : A → Printed) (width : ℕ) (items : List A)
    → All (FitsIn cell width) items
    → length (line_text cell width items) ≤ length items * width
length-line_text cell width [] h = omega arith
length-line_text cell width (p ∷ []) h = grind arith
length-line_text cell width (p ∷ q ∷ ps) h =
    let pad : List ℕ = replicate (width - (cell p).1) 32 in
    let rest = line_text cell width (q ∷ ps) in
    let whole : length (line_text cell width (p ∷ q ∷ ps)) ≡ length ((cell p).0 ++ pad ++ rest) =
      refl in
    let more : length (p ∷ q ∷ ps) * width ≡ length (q ∷ ps) * width + width =
      suc-mul (length (q ∷ ps)) width in
    omega (
      arith,
      whole,
      length-append ((cell p).0 ++ pad) rest,
      length-append (cell p).0 pad,
      length-replicate {A = ℕ} (width - (cell p).1) 32,
      length-line_text cell width (q ∷ ps) h.1,
      more,
      h.0.0,
      h.0.1,
    )

-- A printed text is as long as its printing says, and no longer than `width`.
abbrev pub Keeps : ℕ → Printed → Type 0
Keeps width p = (p.1 ≡ length p.0) × (p.1 ≤ width)

pub Keeps-join : (v w : ℕ) (p q : Printed) → Keeps v p → Keeps w q → Keeps (v + w) (p <+> q)
Keeps-join v w p q h g = omega (arith, length-append p.0 q.0)

-- More digits for a greater number.
pub length-digits : (fuel n m : ℕ) → n ≤ m → length (digits fuel n) ≤ length (digits fuel m)
unfolding digits
length-digits zero n m h = omega arith
length-digits (suc fuel) n m h = ground (
  arith,
  length-digits fuel (n / 10) (m / 10),
  length-append (digits fuel (n / 10)) ((48 + n % 10) ∷ []),
  length-append (digits fuel (m / 10)) ((48 + m % 10) ∷ []),
)

pub length-decimal : (n m : ℕ) → n ≤ m → length (decimal n) ≤ length (decimal m)
unfolding decimal
length-decimal n m h = length-digits 20 n m h

pub length-right_in :
    (width : ℕ) (text : List ℕ) → length text ≤ width → length (right_in width text) ≡ width
unfolding right_in
length-right_in width text h = omega (
  arith,
  length-append (replicate (width - length text) 32) text,
  length-replicate {A = ℕ} (width - length text) 32,
)

pub howmany-le : (n m unit : ℕ) → n ≤ m → howmany n unit ≤ howmany m unit
unfolding howmany
howmany-le n m zero h = omega (arith, div-zero (n + 0), div-zero (m + 0))
howmany-le n m (suc u) h =
    (le-div_iff_mul-le (omega arith)).1 (omega (arith, div-mul-le_self (n + (suc u - 1)) (suc u)))
