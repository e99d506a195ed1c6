-- ===== src/Randtree/Marked.antt =====
-- The marker in the names that rand_dtree.c makes.
use computer_science_notes.Base.{
  ℕ, zero, suc, ◌≤◌, ◌<◌, ◌≡◌, refl, true, Option, some, none, [], ◌∷◌, ◌++◌, take, length,
  take_of_length-le, arith,
}
use native.Mathlib.Decide.{dec_lt}
use computer_science_notes.Randtree.Names.{FilePath, has_marker, with_first, at_last_slash}

pub has_marker-append_right : (p q : FilePath) → has_marker q ≡ true → has_marker (p ++ q) ≡ true
has_marker-append_right [] q h = h
has_marker-append_right (c ∷ p) q h = ground (arith, has_marker-append_right p q h)

length-take : (n : ℕ) (l : FilePath) → n ≤ length l → length (take n l) ≡ n
length-take zero l h = refl
length-take (suc n) [] h = absurd (omega arith)
length-take (suc n) (c ∷ l) h = omega (arith, length-take n l (omega arith))

-- What is short after a cut to a larger size has not been cut.
pub take_uncut : (limit n : ℕ) (l : FilePath) → limit < n → length (take n l) ≤ limit → take n l ≡ l
take_uncut limit n l h s = elim (dec_lt n (length l)) [
  | yes q ↦ absurd (omega (arith, length-take n l (omega arith)))
  | no q ↦ take_of_length-le n l (omega arith)
]

shorter_step :
    (c : ℕ) (path before behind : FilePath) (r : Option (FilePath × FilePath))
    → ((b d : FilePath) → r ≡ some (b, d) → length b < length path)
    → with_first c path r ≡ some (before, behind)
    → length before < suc (length path)
shorter_step c path before behind (some (b, d)) ih e = ground (arith, ih b d refl)
shorter_step c path before behind none ih e = ground arith

pub at_last_slash-shorter :
    (path before behind : FilePath)
    → at_last_slash path ≡ some (before, behind)
    → length before < length path
at_last_slash-shorter [] before behind e = absurd (ground arith)
at_last_slash-shorter (c ∷ path) before behind e =
    shorter_step c path before behind (at_last_slash path)
      (λ b d p. at_last_slash-shorter path b d p) e
