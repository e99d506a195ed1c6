-- ===== src/Sockets/BytesLeft.antt =====
-- The bytes that are left in the array of readLineBuf() of sockets/read_line_buf.c.
use computer_science_notes.Base.{
  ℕ, zero, suc, ◌+◌, ◌-◌, ◌≤◌, ◌<◌, ◌≡◌, refl, inl, inr, Bool-cases, List, [], ◌∷◌, ◌++◌, length,
  ltb, arith, ap, ◌∙◌, take, drop, get_or, false, ◌⊎◌, true,
}
use computer_science_notes.Base.Int.{ℤ, pos, negsuc}
use computer_science_notes.Sockets.LineBuffer.{used_up}

-- The bytes of the array that have been read from the descriptor and not been taken.
abbrev pub bytes_left : ℕ → ℤ → List ℕ → List ℕ
bytes_left next (pos len) buf = take (len - next) (drop next buf)
bytes_left next (negsuc _) buf = []

take_next :
    (m i : ℕ) (buf : List ℕ)
    → i < length buf
    → take (suc m) (drop i buf) ≡ get_or buf i 0 ∷ take m (drop (suc i) buf)
take_next m i [] h = absurd (omega arith)
take_next m zero (b ∷ buf) h = refl
take_next m (suc i) (b ∷ buf) h = take_next m i buf (omega arith)

pub bytes_left-next :
    (next len : ℕ) (buf : List ℕ)
    → next < len
    → len ≤ length buf
    → bytes_left next (pos len) buf ≡ get_or buf next 0 ∷ bytes_left (next + 1) (pos len) buf
bytes_left-next next len buf h f =
    let e : len - next ≡ suc (len - (next + 1)) = omega arith in
    let i : suc next ≡ next + 1 = omega arith in
    ap (λ m. take m (drop next buf)) e
    ∙ take_next (len - (next + 1)) next buf (omega arith)
    ∙ ap (λ j. get_or buf next 0 ∷ take (len - (next + 1)) (drop j buf)) i

take-append_self : (l r : List ℕ) → take (length l) (l ++ r) ≡ l
take-append_self [] r = refl
take-append_self (b ∷ l) r = ap (λ x. b ∷ x) (take-append_self l r)

pub bytes_left-refilled : (l r : List ℕ) → bytes_left 0 (pos (length l)) (l ++ r) ≡ l
bytes_left-refilled l r =
    let e : length l - 0 ≡ length l = omega arith in
    ap (λ m. take m (l ++ r)) e ∙ take-append_self l r

pub bytes_left-empty : (next : ℕ) (buf : List ℕ) → bytes_left next (pos 0) buf ≡ []
bytes_left-empty next buf = let e : 0 - next ≡ 0 = omega arith in ap (λ m. take m (drop next buf)) e

-- Either nothing is left in the array, or there is a next byte.
pub used_up-cases :
    (next : ℕ) (len : ℤ) (buf : List ℕ)
    → ((used_up next len ≡ true) × (bytes_left next len buf ≡ []))
      ⊎ ((used_up next len ≡ false) × ((l : ℕ) × (len ≡ pos l) × (next < l)))
unfolding used_up
used_up-cases next (negsuc a) buf = inl (refl, refl)
used_up-cases next (pos l) buf = elim (Bool-cases (ltb next l)) [
  | inl more ↦ inr (ground arith, (l, refl, ground arith))
  | inr used ↦
      let e : l - next ≡ 0 = ground arith in inl (ground arith, ap (λ m. take m (drop next buf)) e)
]
