-- ===== src/Sockets/Buffered.antt =====
-- readLineBuf() of sockets/read_line_buf.c gives the next line.
use computer_science_notes.Base.{
  ℕ, zero, suc, ◌+◌, ◌-◌, ◌≤◌, ◌<◌, ◌≡◌, refl, sym, inl, inr, Bool-cases, Option, none, some, List,
  [], ◌∷◌, ◌++◌, length, length-append, ◌==◌, arith, ap, ◌∙◌, take, drop, get_or, false,
}
use mathlib.Core.Path.{subst}
use computer_science_notes.Base.Int.{ℤ, pos, negsuc}
use computer_science_notes.Sockets.Reading.{
  ReadReply, got, interrupted, failed, newline, store_char,
}
use computer_science_notes.Sockets.LineBuffer.{
  ReadLineBuf, Answer, take_char, refill, buffered_loop, read_line_buf, rl_max_buf,
}
use computer_science_notes.Sockets.Stream.{
  View, Delivers, IsStream, line_of, after_line, line_of-newline, line_of-other, after_line-newline,
  after_line-other,
}
use computer_science_notes.Sockets.Line.{store_next, store_last, length-store_char}
use computer_science_notes.Sockets.BytesLeft.{
  bytes_left, bytes_left-next, bytes_left-refilled, bytes_left-empty, used_up-cases,
}

abbrev pub pending : ReadLineBuf → List ℕ
pending rl = bytes_left rl.next rl.len rl.buf

-- `len` is no more than the array holds.
abbrev pub Fits : ℤ → List ℕ → Type 0
Fits (pos len) buf = len ≤ length buf
Fits (negsuc _) buf = Unit

module _ {W : Type 0} (v : View W) where
  -- What is still to come: the bytes left in the array, and those behind them.
  abbrev pub text_of : ReadLineBuf → W → List ℕ
  text_of rl w = pending rl ++ v.content w

  -- The calls that failed or were interrupted.
  abbrev pub errors : W → ℕ
  errors w = v.failures w + v.interruptions w

  -- What readLineBuf() returns for the line `line`, cut to the buffer's size, when `rest` follows
  -- it and `before` calls had failed or been interrupted: no other one has been. Or -1: one more
  -- call has failed or been interrupted.
  abbrev pub IsAnswerOf : ℕ → ℕ → List ℕ → List ℕ → Option (Answer W) → Type 0
  IsAnswerOf n before line rest none = ⊥
  IsAnswerOf n before line rest (some (some c, stored, rl, w)) =
      (c ≡ length line)
      × (stored ≡ line)
      × (text_of rl w ≡ rest)
      × Fits rl.len rl.buf
      × (errors w ≡ before)
  IsAnswerOf n before line rest (some (none, stored, rl, w)) =
      (length stored ≤ n) × Fits rl.len rl.buf × (errors w ≡ suc before)

  module _ (n before : ℕ) (line rest : List ℕ) where
    -- The invariant of the loop.
    abbrev Along : List ℕ → ReadLineBuf → W → Type 0
    Along stored rl w =
        (line ≡ stored ++ take (n - length stored) (line_of (text_of rl w)))
        × (rest ≡ after_line (text_of rl w))
        × (length stored ≤ n)
        × Fits rl.len rl.buf
        × (errors w ≡ before)

    take_char_lem :
        (again : List ℕ → ReadLineBuf → W → Option (Answer W))
        → (stored : List ℕ) (rl : ReadLineBuf) (w : W) (len : ℕ)
        → ((next : List ℕ) (rl' : ReadLineBuf)
            → Along next rl' w
            → length (text_of rl' w) < length (text_of rl w)
            → IsAnswerOf n before line rest (again next rl' w))
        → Along stored rl w
        → rl.len ≡ pos len
        → rl.next < len
        → IsAnswerOf n before line rest (take_char again n stored rl w)
    unfolding take_char
    take_char_lem again stored rl w len ih a p h =
        let c = get_or rl.buf rl.next 0 in
        let after : ReadLineBuf = record rl { next = rl.next + 1 } in
        let fits : len ≤ length rl.buf = subst (λ z. Fits z rl.buf) p a.3 in
        let left : pending rl ≡ c ∷ pending after =
          ap (λ z. bytes_left rl.next z rl.buf) p
          ∙ bytes_left-next rl.next len rl.buf h fits
          ∙ ap (λ z. c ∷ bytes_left (rl.next + 1) z rl.buf) (sym p) in
        let whole : text_of rl w ≡ c ∷ text_of after w = ap (λ l. l ++ v.content w) left in
        elim (Bool-cases (c == newline)) [
          | inl nl ↦
              rw (nl, IsAnswerOf)
                (let e : line ≡ store_char n stored c = store_last n (store_char n stored c) line (
                    store_next n stored c line (text_of rl w) (text_of after w) [] a.0 whole
                      (line_of-newline c (text_of after w) nl)) in
                  (
                    ap length (sym e),
                    sym e,
                    sym (a.1 ∙ ap after_line whole ∙ after_line-newline c (text_of after w) nl),
                    a.3,
                    a.4,
                  ))
          | inr other ↦
              rw (other, IsAnswerOf)
                (ih (store_char n stored c) after
                  (
                    store_next n stored c line (text_of rl w) (text_of after w) _ a.0 whole
                        (line_of-other c (text_of after w) other),
                    a.1 ∙ ap after_line whole ∙ after_line-other c (text_of after w) other,
                    length-store_char n stored c a.2,
                    a.3,
                    a.4,
                  )
                  (omega (arith, ap length whole)))
        ]

    refill_lem :
        (again : List ℕ → ReadLineBuf → W → Option (Answer W))
        → (stored : List ℕ) (rl : ReadLineBuf) (w : W)
        → ((next : List ℕ) (rl' : ReadLineBuf) (w' : W)
            → Along next rl' w'
            → length (text_of rl' w') < length (text_of rl w)
            → IsAnswerOf n before line rest (again next rl' w'))
        → (r : ReadReply × W) → Along stored rl w
        → pending rl ≡ []
        → Delivers v w rl_max_buf r
        → IsAnswerOf n before line rest (refill again n stored rl r)
    unfolding refill line_of after_line
    refill_lem again stored rl w ih (got [], w') a e d =
        let over : text_of rl w ≡ [] = ap (λ l. l ++ v.content w) e ∙ d.0 in
        let now : line ≡ stored =
          store_last n stored line
            (a.0 ∙ ap (λ t. stored ++ take (n - length stored) (line_of t)) over) in
        (
          ap length (sym now),
          sym now,
          ap (λ l. l ++ v.content w') (bytes_left-empty rl.next rl.buf)
              ∙ d.1
              ∙ sym (a.1 ∙ ap after_line over),
          omega arith,
          omega (arith, d.2.0, d.2.1, a.4),
        )
    refill_lem again stored rl w ih (got (b ∷ bs), w') a e d =
        let full : ReadLineBuf = record {
          buf = (b ∷ bs) ++ drop (length (b ∷ bs)) rl.buf;
          next = 0;
          len = pos (length (b ∷ bs));
        } in
        let same : text_of rl w ≡ text_of full w' =
          ap (λ l. l ++ v.content w) e
          ∙ d.0
          ∙ ap (λ l. l ++ v.content w')
              (sym (bytes_left-refilled (b ∷ bs) (drop (length (b ∷ bs)) rl.buf))) in
        take_char_lem again stored full w' (length (b ∷ bs))
          (λ next rl' a' m. ih next rl' w' a' (omega (arith, ap length same)))
          (
            a.0 ∙ ap (λ t. stored ++ take (n - length stored) (line_of t)) same,
            a.1 ∙ ap after_line same,
            a.2,
            omega (arith, length-append (b ∷ bs) (drop (length (b ∷ bs)) rl.buf)),
            omega (arith, d.3.0, d.3.1, a.4),
          )
          refl (omega arith)
    refill_lem again stored rl w ih (interrupted, w') a e d =
        (a.2, tt, omega (arith, d.2, d.3, a.4))
    refill_lem again stored rl w ih (failed, w') a e d = (a.2, tt, omega (arith, d.0, d.1, a.4))

module _ {W : Type 0} (read : W → ℕ → ReadReply × W) (s : IsStream read) where
  buffered_loop_lem :
      (fuel n before : ℕ) (line rest stored : List ℕ) (rl : ReadLineBuf) (w : W)
      → Along s.view n before line rest stored rl w
      → length (text_of s.view rl w) < fuel
      → IsAnswerOf s.view n before line rest (buffered_loop read fuel n stored rl w)
  unfolding buffered_loop
  buffered_loop_lem zero n before line rest stored rl w a f = absurd (omega arith)
  buffered_loop_lem (suc fuel) n before line rest stored rl w a f =
      elim (used_up-cases rl.next rl.len rl.buf) [
        | inl used ↦
            rw (used.0, IsAnswerOf)
              (refill_lem s.view n before line rest (buffered_loop read fuel n) stored rl w
                (λ next rl' w' a' m.
                  buffered_loop_lem fuel n before line rest next rl' w' a' (omega arith))
                (read w rl_max_buf) a used.1 (s.delivers w rl_max_buf (omega arith)))
        | inr more ↦
            rw (more.0, IsAnswerOf)
              (take_char_lem s.view n before line rest (buffered_loop read fuel n) stored rl w
                more.1.0
                (λ next rl' a' m.
                  buffered_loop_lem fuel n before line rest next rl' w a' (omega arith))
                a more.1.1 more.1.2)
      ]

  -- On a stream, readLineBuf() with a buffer of `n` bytes, `n` positive, and a structure whose
  -- `len` is within its array, returns when it is given a round for each byte to come, in the
  -- array or behind it, and one more. It stores the first `n` bytes of the next line, the newline
  -- included and no null byte, returns their number, and leaves what follows the line to come, in
  -- the array or behind it, also where the line is longer or the pieces that read() gives end
  -- within it; no read() has failed or been interrupted then. Or it returns -1: then one read()
  -- has failed or been interrupted, and no more than `n` bytes are stored. `len` is within the
  -- array afterwards.
  pub read_line_buf_lem :
      (fuel n : ℕ) (rl : ReadLineBuf) (w : W)
      → 0 < n
      → Fits rl.len rl.buf
      → length (text_of s.view rl w) < fuel
      → IsAnswerOf s.view n
          (errors s.view w)
          (take n (line_of (text_of s.view rl w)))
          (after_line (text_of s.view rl w))
          (read_line_buf read fuel false n rl w)
  unfolding read_line_buf
  read_line_buf_lem fuel zero rl w p h f = absurd (omega arith)
  read_line_buf_lem fuel (suc m) rl w p h f =
      buffered_loop_lem fuel (suc m) (errors s.view w)
        (take (suc m) (line_of (text_of s.view rl w))) _ [] rl w
        (
          ap (λ i. take i (line_of (text_of s.view rl w))) {x = suc m} (omega arith),
          refl,
          omega arith,
          h,
          refl,
        )
        f
