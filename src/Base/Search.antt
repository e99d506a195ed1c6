-- ===== src/Base/Search.antt =====
-- `for (j = 0; j < n; j++) if (test(a[j])) return j; return -1;`, which the programs write again
-- and again. `none` is the -1.
use Prim.Native.Nat.{ℕ, zero, suc}
use mathlib.Core.Path.{◌≡◌, refl}
use mathlib.Core.Bool.{Bool, true, false}
use mathlib.Core.List.{List, [], ◌∷◌}
use mathlib.Core.Option
use mathlib.Core.Option.{Option, none, some}
use native.Mathlib.Omega.{arith}
use computer_science_notes.Base.Tests.{if◌then◌else◌, Bool-cases}
use mathlib.Core.Logic.{inl, inr}
use computer_science_notes.Base.Lists.{get_elem?}

module _ {ℓ} {A : Type ℓ} where
  abbrev pub find_index : (A → Bool) → List A → Option ℕ
  find_index p [] = none
  find_index p (x ∷ xs) = if p x then some 0 else Option.map suc (find_index p xs)

module _ {ℓ} {A : Type ℓ} where
  -- A slot that is found holds an entry that passes the test.
  pub find_index-eq-some :
      (p : A → Bool) (xs : List A) (j : ℕ)
      → find_index p xs ≡ some j
      → (x : A) × (get_elem? xs j ≡ some x) × (p x ≡ true)
  find_index-eq-some p [] j h = ground arith
  find_index-eq-some p (x ∷ xs) zero h = elim (Bool-cases (p x)) [
    | inl yes_x ↦ (x, refl, yes_x)
    | inr no_x ↦ absurd (ground arith)
  ]
  find_index-eq-some p (x ∷ xs) (suc j) h = find_index-eq-some p xs j (ground arith)

  -- Where no slot is found, no entry passes the test.
  pub find_index-eq-none :
      (p : A → Bool) (xs : List A) (j : ℕ) (x : A)
      → find_index p xs ≡ none
      → get_elem? xs j ≡ some x
      → p x ≡ false
  find_index-eq-none p [] j x h e = ground arith
  find_index-eq-none p (y ∷ xs) zero x h e = ground arith
  find_index-eq-none p (y ∷ xs) (suc j) x h e = find_index-eq-none p xs j x (ground arith) e
