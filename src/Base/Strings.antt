-- ===== src/Base/Strings.antt =====
-- Strings as lists of bytes: strcmp() as a test, and strchr() where the program writes a null byte at
-- what it finds.
use Prim.Native.Nat.{ℕ}
use mathlib.Core.Path.{◌≡◌, refl, ap}
use mathlib.Core.Logic.{inl, inr}
use mathlib.Core.Bool.{Bool, true, false, ◌&&◌, ◌||◌}
use mathlib.Core.Option.{Option, none, some}
use mathlib.Core.List.{List, [], ◌∷◌, ◌++◌}
use native.Mathlib.Omega.{arith}
use computer_science_notes.Base.Tests.{◌==◌, Bool-cases}

-- `strcmp(a, b) == 0`
abbrev pub same_string : List ℕ → List ℕ → Bool
same_string [] [] = true
same_string (a ∷ xs) (b ∷ ys) = (a == b) && same_string xs ys
same_string _ _ = false

-- strchr(), and the null byte that is written where it finds the character: what is left of the
-- string, and what stands behind the character.
abbrev pub cut_at : ℕ → List ℕ → List ℕ × Option (List ℕ)
cut_at sep [] = ([], none)
cut_at sep (c ∷ l) =
    let rest = cut_at sep l in
    elim (c == sep) [ true ↦ ([], some l) | false ↦ (c ∷ rest.0, rest.1) ]

abbrev pub contains : ℕ → List ℕ → Bool
contains sep [] = false
contains sep (c ∷ l) = (c == sep) || contains sep l

-- What follows a separator, if anything does.
abbrev pub suffix : ℕ → Option (List ℕ) → List ℕ
suffix sep none = []
suffix sep (some l) = sep ∷ l

pub cut_at-append :
    (sep : ℕ) (l : List ℕ) (tail : Option (List ℕ))
    → contains sep l ≡ false
    → cut_at sep (l ++ suffix sep tail) ≡ (l, tail)
cut_at-append sep [] none h = refl
cut_at-append sep [] (some t) h = ground arith
cut_at-append sep (c ∷ l) tail h = elim (Bool-cases (c == sep)) [
  | inl e ↦ absurd (ground arith)
  | inr e ↦ rw (e, cut_at) (ap (λ r. (c ∷ r.0, r.1)) (cut_at-append sep l tail (ground arith)))
]

pub contains-append :
    (sep : ℕ) (l r : List ℕ) → contains sep (l ++ r) ≡ (contains sep l || contains sep r)
contains-append sep [] r = refl
contains-append sep (c ∷ l) r = ground (arith, contains-append sep l r)
