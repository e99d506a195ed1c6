-- ===== src/Sockets/Whole.antt =====
-- writen() of sockets/rdwrn.c writes the whole buffer.
use computer_science_notes.Base.{
  ℕ, zero, suc, ◌+◌, ◌-◌, ◌≤◌, ◌<◌, ◌≡◌, refl, sym, inl, inr, Bool-cases, Option, none, some, List,
  [], ◌∷◌, ◌++◌, length, append-nil, take-nil, append_assoc, ltb, arith, ap, ◌∙◌, take, drop,
}
use computer_science_notes.Sockets.Writing.{
  Written, wrote, write_interrupted, write_failed, writen_reply, writen_loop, writen,
}

-- What a state says of a sink: what has been written so far, a bound of the interruptions still
-- to come, and how many calls have failed.
pub record SinkView (W : Type 0) : Type 0 where
  pub sent : W → List ℕ
  pub patience : W → ℕ
  pub failures : W → ℕ

-- The reply to a write() of some bytes: a positive number of bytes, no more than were given, have
-- been appended; or nothing has.
abbrev pub Accepts : {W : Type 0} → SinkView W → W → List ℕ → Written × W → Type 0
Accepts v w bs (wrote m, w') =
    (0 < m)
    × (m ≤ length bs)
    × (v.sent w' ≡ v.sent w ++ take m bs)
    × (v.patience w' ≤ v.patience w)
    × (v.failures w' ≡ v.failures w)
Accepts v w bs (write_interrupted, w') =
    (v.sent w' ≡ v.sent w) × (v.patience w' < v.patience w) × (v.failures w' ≡ v.failures w)
Accepts v w bs (write_failed, w') = (v.sent w' ≡ v.sent w) × (v.failures w' ≡ suc (v.failures w))

pub record IsSink {W : Type 0} (write : W → List ℕ → Written × W) : Type 0 where
  pub view : SinkView W
  pub accepts : (w : W) (bs : List ℕ) → 0 < length bs → Accepts view w bs (write w bs)

take-shorter : {A : Type 0} (j m : ℕ) (l : List A) → m ≤ j → take m (take j l) ≡ take m l
take-shorter j zero l h = refl
take-shorter zero (suc m) l h = absurd (omega arith)
take-shorter (suc j) (suc m) [] h = refl
take-shorter (suc j) (suc m) (a ∷ l) h = ap (λ r. a ∷ r) (take-shorter j m l (omega arith))

-- The first `i` elements, and the first `m` of the next `j`.
take-middle :
    {A : Type 0} (i j m : ℕ) (l : List A)
    → m ≤ j
    → take i l ++ take m (take j (drop i l)) ≡ take (i + m) l
take-middle zero j m l h = take-shorter j m l h ∙ ap (λ i. take i l) (omega arith)
take-middle (suc i) j m [] h = ap (take m) (take-nil j) ∙ take-nil m ∙ sym (take-nil (suc i + m))
take-middle (suc i) j m (a ∷ l) h =
    let e : suc (i + m) ≡ suc i + m = omega arith in
    ap (λ r. a ∷ r) (take-middle i j m l h) ∙ ap (λ x. take x (a ∷ l)) e

length-piece :
    {A : Type 0} (i j : ℕ) (l : List A) → i + j ≤ length l → length (take j (drop i l)) ≡ j
length-piece zero zero l h = refl
length-piece zero (suc j) [] h = absurd (omega arith)
length-piece zero (suc j) (a ∷ l) h = ap suc (length-piece zero j l (omega arith))
length-piece (suc i) j [] h = absurd (omega arith)
length-piece (suc i) j (a ∷ l) h = length-piece i j l (omega arith)

module _ {W : Type 0} (v : SinkView W) where
  -- What writen() of the first `n` bytes of `buffer` returns, when `start` had been sent and
  -- `failures` calls had failed before: the count `n`, with exactly these bytes sent behind it and
  -- no failure; or -1, with a proper part sent, and one write() has failed.
  abbrev pub IsWriteOf : ℕ → List ℕ → List ℕ → ℕ → Option (Option ℕ × W) → Type 0
  IsWriteOf failures start buffer n none = ⊥
  IsWriteOf failures start buffer n (some (some c, w)) =
      (c ≡ n) × (v.sent w ≡ start ++ take n buffer) × (v.failures w ≡ failures)
  IsWriteOf failures start buffer n (some (none, w)) =
      (m : ℕ) × (m < n) × (v.sent w ≡ start ++ take m buffer) × (v.failures w ≡ suc failures)

  module _ (failures : ℕ) (start buffer : List ℕ) (n : ℕ) where
    writen_reply_lem :
        (again : ℕ → W → Option (Option ℕ × W)) (total : ℕ) (w : W)
        → ((next : ℕ) (w' : W)
            → v.sent w' ≡ start ++ take next buffer
            → v.failures w' ≡ failures
            → next ≤ n
            → (n - next) + v.patience w' < (n - total) + v.patience w
            → IsWriteOf failures start buffer n (again next w'))
        → (r : Written × W) → v.sent w ≡ start ++ take total buffer
        → v.failures w ≡ failures
        → total < n
        → n ≤ length buffer
        → Accepts v w (take (n - total) (drop total buffer)) r
        → IsWriteOf failures start buffer n (writen_reply again total r)
    unfolding writen_reply
    writen_reply_lem again total w ih (wrote zero, w') e q h b a = absurd (omega (arith, a.0))
    writen_reply_lem again total w ih (wrote (suc m), w') e q h b a =
        let fits : suc m ≤ n - total =
          omega (arith, a.1, length-piece total (n - total) buffer (omega arith)) in
        ih (total + suc m) w'
          (a.2
            ∙ ap (λ l. l ++ take (suc m) (take (n - total) (drop total buffer))) e
            ∙ append_assoc start (take total buffer) _
            ∙ ap (λ l. start ++ l) (take-middle total (n - total) (suc m) buffer fits))
          (a.4 ∙ q) (omega arith) (omega (arith, a.3))
    writen_reply_lem again total w ih (write_interrupted, w') e q h b a =
        ih total w' (a.0 ∙ e) (a.2 ∙ q) (omega arith) (omega (arith, a.1))
    writen_reply_lem again total w ih (write_failed, w') e q h b a =
        (total, h, a.0 ∙ e, a.1 ∙ ap suc q)

module _ {W : Type 0} (write : W → List ℕ → Written × W) (s : IsSink write) where
  writen_loop_lem :
      (fuel failures : ℕ) (start buffer : List ℕ) (n total : ℕ) (w : W)
      → n ≤ length buffer
      → s.view.sent w ≡ start ++ take total buffer
      → s.view.failures w ≡ failures
      → total ≤ n
      → (n - total) + s.view.patience w < fuel
      → IsWriteOf s.view failures start buffer n (writen_loop write fuel buffer n total w)
  unfolding writen_loop
  writen_loop_lem zero failures start buffer n total w b e q h f = absurd (omega arith)
  writen_loop_lem (suc fuel) failures start buffer n total w b e q h f =
      elim (Bool-cases (ltb total n)) [
        | inl more ↦
            let less : total < n = ground arith in
            rw (more, IsWriteOf)
              (writen_reply_lem s.view failures start buffer n (writen_loop write fuel buffer n)
                total w
                (λ next w' e' q' h' m.
                  writen_loop_lem fuel failures start buffer n next w' b e' q' h' (omega arith))
                (write w (take (n - total) (drop total buffer))) e q less b
                (s.accepts w _
                  (omega (arith, length-piece total (n - total) buffer (omega arith)))))
        | inr full ↦
            let same : total ≡ n = ground arith in
            rw (full, IsWriteOf) (same, e ∙ ap (λ i. start ++ take i buffer) same, q)
      ]

  -- On a sink, writen() of no more bytes than the buffer holds returns when it is given a round
  -- for each byte, one for each interruption and one more. It returns `n` with exactly the first
  -- `n` bytes of the buffer sent, in order and once each, however write() cuts them up, and no
  -- write() has failed; or -1 with fewer of them sent, and one write() has failed.
  pub writen_lem :
      (fuel : ℕ) (buffer : List ℕ) (n : ℕ) (w : W)
      → n ≤ length buffer
      → n + s.view.patience w < fuel
      → IsWriteOf s.view (s.view.failures w) (s.view.sent w) buffer n (writen write fuel buffer n w)
  unfolding writen
  writen_lem fuel buffer n w b f =
      writen_loop_lem fuel (s.view.failures w) (s.view.sent w) buffer n 0 w b
        (sym (append-nil (s.view.sent w))) refl (omega arith) (omega arith)
