-- ===== src/Base/Counts.antt =====
-- Counting the elements of a list that pass a test, and adding up, when one of them changes.
use native.Mathlib.Decide.{dec_lt}
use mathlib.Core.Bool.{Bool, true, false}
use computer_science_notes.Base.{
  ℕ, zero, suc, ◌+◌, ◌≤◌, ◌<◌, ◌≡◌, refl, some, List, [], ◌∷◌, ◌++◌, length, get_elem?, set, arith,
  Bool-cases, inl, inr,
}

abbrev pub weight : Bool → ℕ
weight true = 1
weight false = 0

pub get_elem?_exists :
    {A : Type 0} (l : List A) (i : ℕ) → i < length l → (a : A) × (get_elem? l i ≡ some a)
get_elem?_exists [] i h = absurd (omega arith)
get_elem?_exists (x ∷ l) zero h = (x, refl)
get_elem?_exists (x ∷ l) (suc i) h = get_elem?_exists l i (omega arith)

module _ {A : Type 0} (p : A → Bool) where
  abbrev pub count : List A → ℕ
  count [] = 0
  count (a ∷ l) = weight (p a) + count l

  pub count-set :
      (l : List A) (i : ℕ) (a b : A)
      → get_elem? l i ≡ some a
      → count (set l i b) + weight (p a) ≡ count l + weight (p b)
  count-set [] i a b h = absurd (ground arith)
  count-set (x ∷ l) zero a b h = ground arith
  count-set (x ∷ l) (suc i) a b h = ground (arith, count-set l i a b)

  pub count-snoc : (l : List A) (a : A) → count (l ++ a ∷ []) ≡ count l + weight (p a)
  count-snoc [] a = omega arith
  count-snoc (x ∷ l) a = omega (arith, count-snoc l a)

  pub weight-le-count :
      (l : List A) (i : ℕ) (a : A) → get_elem? l i ≡ some a → weight (p a) ≤ count l
  weight-le-count [] i a h = absurd (ground arith)
  weight-le-count (x ∷ l) zero a h = ground arith
  weight-le-count (x ∷ l) (suc i) a h = ground (arith, weight-le-count l i a)

  -- Where some are counted, there is one.
  pub count-find :
      (l : List A) → 0 < count l → (i : ℕ) × (a : A) × (get_elem? l i ≡ some a) × (p a ≡ true)
  count-find [] h = absurd (omega arith)
  count-find (x ∷ l) h = elim (Bool-cases (p x)) [
    | inl e ↦ (0, x, refl, e)
    | inr e ↦ let (i, a, at, q) = count-find l (ground arith) in (suc i, a, at, q)
  ]

  -- Those at an index below `i`.
  abbrev pub count_below : List A → ℕ → ℕ
  count_below [] i = 0
  count_below (x ∷ l) zero = 0
  count_below (x ∷ l) (suc i) = weight (p x) + count_below l i

  pub count_below-suc :
      (l : List A) (i : ℕ) (a : A)
      → get_elem? l i ≡ some a
      → count_below l (suc i) ≡ count_below l i + weight (p a)
  count_below-suc [] i a h = absurd (ground arith)
  count_below-suc (x ∷ []) zero a h = ground arith
  count_below-suc (x ∷ y ∷ l) zero a h = ground arith
  count_below-suc (x ∷ l) (suc i) a h = ground (arith, count_below-suc l i a)

  pub count_below-length : (l : List A) → count_below l (length l) ≡ count l
  count_below-length [] = refl
  count_below-length (x ∷ l) = omega (arith, count_below-length l)

  pub count_below-zero : (l : List A) → count_below l 0 ≡ 0
  count_below-zero [] = refl
  count_below-zero (x ∷ l) = refl

  pub count_below-set-suc :
      (l : List A) (i : ℕ) (a b : A)
      → get_elem? l i ≡ some a
      → count_below (set l i b) (suc i) ≡ count_below l i + weight (p b)
  count_below-set-suc [] i a b h = absurd (ground arith)
  count_below-set-suc (x ∷ l) zero a b h = omega (arith, count_below-zero l)
  count_below-set-suc (x ∷ l) (suc i) a b h = ground (arith, count_below-set-suc l i a b)

  -- A change that leaves the test as it was does not count.
  pub count_below-set_same :
      (l : List A) (i j : ℕ) (a b : A)
      → get_elem? l j ≡ some a
      → p a ≡ p b
      → count_below (set l j b) i ≡ count_below l i
  count_below-set_same [] i j a b h e = refl
  count_below-set_same (x ∷ l) zero zero a b h e = refl
  count_below-set_same (x ∷ l) zero (suc j) a b h e = refl
  count_below-set_same (x ∷ l) (suc i) zero a b h e = ground arith
  count_below-set_same (x ∷ l) (suc i) (suc j) a b h e =
      ground (arith, count_below-set_same l i j a b)

pub count_mono :
    {A : Type 0} (p q : A → Bool) (l : List A)
    → ((a : A) → weight (p a) ≤ weight (q a))
    → count p l ≤ count q l
count_mono p q [] h = omega arith
count_mono p q (x ∷ l) h = omega (arith, h x, count_mono p q l h)

module _ {A : Type 0} (f : A → ℕ) where
  abbrev pub total : List A → ℕ
  total [] = 0
  total (a ∷ l) = f a + total l

  pub total-set :
      (l : List A) (i : ℕ) (a b : A)
      → get_elem? l i ≡ some a
      → total (set l i b) + f a ≡ total l + f b
  total-set [] i a b h = absurd (ground arith)
  total-set (x ∷ l) zero a b h = ground arith
  total-set (x ∷ l) (suc i) a b h = ground (arith, total-set l i a b)

  pub total-snoc : (l : List A) (a : A) → total (l ++ a ∷ []) ≡ total l + f a
  total-snoc [] a = omega arith
  total-snoc (x ∷ l) a = omega (arith, total-snoc l a)

  pub total-find :
      (l : List A) → 0 < total l → (i : ℕ) × (a : A) × (get_elem? l i ≡ some a) × (0 < f a)
  total-find [] h = absurd (omega arith)
  total-find (x ∷ l) h = elim (dec_lt 0 (f x)) [
    | yes q ↦ (0, x, refl, q)
    | no q ↦ let (i, a, at, k) = total-find l (omega arith) in (suc i, a, at, k)
  ]
