-- ===== src/Sockets/Stream.antt =====
-- What the routines of sockets/ rely on of read(): it delivers a stream of bytes in pieces, up to
-- the end of the file, and is interrupted a bounded number of times. And what a line of a stream
-- is.
use computer_science_notes.Base.{arith}
use computer_science_notes.Base.{if◌then◌else◌}
use computer_science_notes.Base.{
  ℕ, suc, ◌≡◌, ◌≤◌, ◌<◌, true, false, List, [], ◌∷◌, ◌++◌, length, ◌==◌,
}
use computer_science_notes.Sockets.Reading.{ReadReply, got, interrupted, failed, newline}

-- What a state says of a stream: the bytes still to come, a bound of the interruptions still to
-- come, and how many calls have failed and how many have been interrupted so far.
pub record View (W : Type 0) : Type 0 where
  pub content : W → List ℕ
  pub patience : W → ℕ
  pub failures : W → ℕ
  pub interruptions : W → ℕ

-- Neither a failure nor an interruption has been counted between two states.
abbrev pub Calm : {W : Type 0} → View W → W → W → Type 0
Calm v w w' = (v.failures w' ≡ v.failures w) × (v.interruptions w' ≡ v.interruptions w)

-- A reply to a request for `n` bytes. Of the bytes nothing is said where read() fails.
abbrev pub Delivers : {W : Type 0} → View W → W → ℕ → ReadReply × W → Type 0
Delivers v w n (got [], w') = (v.content w ≡ []) × (v.content w' ≡ []) × Calm v w w'
Delivers v w n (got (b ∷ bs), w') =
    (v.content w ≡ (b ∷ bs) ++ v.content w')
    × (length (b ∷ bs) ≤ n)
    × (v.patience w' ≤ v.patience w)
    × Calm v w w'
Delivers v w n (interrupted, w') =
    (v.content w' ≡ v.content w)
    × (v.patience w' < v.patience w)
    × (v.failures w' ≡ v.failures w)
    × (v.interruptions w' ≡ suc (v.interruptions w))
Delivers v w n (failed, w') =
    (v.failures w' ≡ suc (v.failures w)) × (v.interruptions w' ≡ v.interruptions w)

pub record IsStream {W : Type 0} (read : W → ℕ → ReadReply × W) : Type 0 where
  pub view : View W
  pub delivers : (w : W) (n : ℕ) → 0 < n → Delivers view w n (read w n)

-- The first line of some bytes, its newline included, and what follows it.
unfoldable pub line_of : List ℕ → List ℕ
line_of [] = []
line_of (b ∷ bs) = if b == newline then b ∷ [] else b ∷ line_of bs

unfoldable pub after_line : List ℕ → List ℕ
after_line [] = []
after_line (b ∷ bs) = if b == newline then bs else after_line bs

pub line_of-newline : (b : ℕ) (bs : List ℕ) → (b == newline) ≡ true → line_of (b ∷ bs) ≡ b ∷ []
unfolding line_of
line_of-newline b bs h = ground arith

pub line_of-other :
    (b : ℕ) (bs : List ℕ) → (b == newline) ≡ false → line_of (b ∷ bs) ≡ b ∷ line_of bs
unfolding line_of
line_of-other b bs h = ground arith

pub after_line-newline : (b : ℕ) (bs : List ℕ) → (b == newline) ≡ true → after_line (b ∷ bs) ≡ bs
unfolding after_line
after_line-newline b bs h = ground arith

pub after_line-other :
    (b : ℕ) (bs : List ℕ) → (b == newline) ≡ false → after_line (b ∷ bs) ≡ after_line bs
unfolding after_line
after_line-other b bs h = ground arith
