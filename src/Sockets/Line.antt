-- ===== src/Sockets/Line.antt =====
-- readLine() of sockets/read_line.c gives the next line.
use computer_science_notes.Sockets.Stream.{after_line-other}
use computer_science_notes.Sockets.Stream.{line_of-other}
use computer_science_notes.Sockets.Stream.{after_line-newline}
use computer_science_notes.Sockets.Stream.{line_of-newline}
use computer_science_notes.Base.{
  ℕ, zero, suc, ◌+◌, ◌-◌, ◌≤◌, ◌<◌, ◌≡◌, refl, sym, inl, inr, Bool-cases, Option, none, some, List,
  [], ◌∷◌, ◌++◌, length, length-append, append-nil, take-nil, append_assoc, ltb, ◌==◌, arith, ap,
  ◌∙◌, take, false, ◌⊎◌,
}
use computer_science_notes.Sockets.Reading.{
  ReadReply, got, interrupted, failed, ReadReturn, newline, store_char, end_line, end_of_input,
  line_reply, read_line_loop, read_line,
}
use computer_science_notes.Sockets.Stream.{View, Delivers, IsStream, line_of, after_line}

-- What is stored in the end, when the first byte of what is left is stored first.
pub store_char_lem :
    (bound : ℕ) (stored : List ℕ) (ch : ℕ) (l : List ℕ)
    → store_char bound stored ch ++ take (bound - length (store_char bound stored ch)) l
      ≡ stored ++ take (bound - length stored) (ch ∷ l)
unfolding store_char
store_char_lem bound stored ch l = elim (Bool-cases (ltb (length stored) bound)) [
  | inl room ↦
      let now : store_char bound stored ch ≡ stored ++ ch ∷ [] = rw (room, store_char) refl in
      let e : suc (bound - length (stored ++ ch ∷ [])) ≡ bound - length stored =
        grind (arith, length-append stored (ch ∷ [])) in
      ap (λ r. r ++ take (bound - length r) l) now
      ∙ append_assoc stored (ch ∷ []) _
      ∙ ap (λ i. stored ++ take i (ch ∷ l)) e
  | inr full ↦
      let now : store_char bound stored ch ≡ stored = rw (full, store_char) refl in
      let e : 0 ≡ bound - length stored = ground arith in
      ap (λ r. r ++ take (bound - length r) l) now
      ∙ ap (λ i. stored ++ take i l) (sym e)
      ∙ ap (λ i. stored ++ take i (ch ∷ l)) e
]

-- One round of a loop that reads the byte `ch` of a line.
pub store_next :
    (bound : ℕ) (stored : List ℕ) (ch : ℕ) (line text bytes l : List ℕ)
    → line ≡ stored ++ take (bound - length stored) (line_of text)
    → text ≡ ch ∷ bytes
    → line_of (ch ∷ bytes) ≡ ch ∷ l
    → line ≡ store_char bound stored ch ++ take (bound - length (store_char bound stored ch)) l
store_next bound stored ch line text bytes l e t u =
    e
    ∙ ap (λ r. stored ++ take (bound - length stored) (line_of r)) t
    ∙ ap (λ r. stored ++ take (bound - length stored) r) u
    ∙ sym (store_char_lem bound stored ch l)

-- Nothing of the line is left.
pub store_last :
    (bound : ℕ) (stored line : List ℕ)
    → line ≡ stored ++ take (bound - length stored) []
    → line ≡ stored
store_last bound stored line e = e ∙ ap (λ r. stored ++ r) (take-nil _) ∙ append-nil stored

pub length-store_char :
    (bound : ℕ) (stored : List ℕ) (ch : ℕ)
    → length stored ≤ bound
    → length (store_char bound stored ch) ≤ bound
unfolding store_char
length-store_char bound stored ch h = ground (arith, length-append stored (ch ∷ []))

module _ {W : Type 0} (v : View W) where
  -- What readLine() returns for the line `line`, cut to the buffer's size, when `rest` follows it:
  -- the line's length; the line and a null byte, or nothing where there is no byte at the end of
  -- the file; `rest` is still to come, and no read() has failed since `failures` had. Or -1: one
  -- read() has failed, and what has been stored fits.
  abbrev pub IsLineOf : ℕ → ℕ → List ℕ → List ℕ → Option (ReadReturn W) → Type 0
  IsLineOf bound failures line rest none = ⊥
  IsLineOf bound failures line rest (some (some c, buffer, w)) =
      (c ≡ length line)
      × (v.content w ≡ rest)
      × ((buffer ≡ line ++ 0 ∷ []) ⊎ ((line ≡ []) × (rest ≡ []) × (buffer ≡ [])))
      × (v.failures w ≡ failures)
  IsLineOf bound failures line rest (some (none, buffer, w)) =
      (length buffer ≤ bound) × (v.failures w ≡ suc failures)

  end_line_lem :
      (bound failures : ℕ) (line rest stored : List ℕ) (w : W)
      → line ≡ stored
      → v.content w ≡ rest
      → v.failures w ≡ failures
      → IsLineOf bound failures line rest (end_line stored w)
  unfolding end_line
  end_line_lem bound failures line rest stored w e h q =
      (ap length (sym e), h, inl (ap (λ l. l ++ 0 ∷ []) (sym e)), q)

  end_of_input_lem :
      (bound failures : ℕ) (line rest stored : List ℕ) (w : W)
      → line ≡ stored
      → v.content w ≡ rest
      → v.failures w ≡ failures
      → rest ≡ []
      → IsLineOf bound failures line rest (end_of_input stored w)
  unfolding end_of_input
  end_of_input_lem bound failures line rest [] w e h q r =
      (ap length (sym e), h, inr (e, r, refl), q)
  end_of_input_lem bound failures line rest (b ∷ bs) w e h q r =
      end_line_lem bound failures line rest (b ∷ bs) w e h q

  module _ (n failures : ℕ) (line rest : List ℕ) where
    -- The invariant of the loop: the line is what has been stored and what fits of the line to
    -- come.
    abbrev Along : List ℕ → W → Type 0
    Along stored w =
        (line ≡ stored ++ take (n - 1 - length stored) (line_of (v.content w)))
        × (rest ≡ after_line (v.content w))
        × (length stored ≤ n - 1)
        × (v.failures w ≡ failures)

    line_reply_lem :
        (again : List ℕ → W → Option (ReadReturn W)) (stored : List ℕ) (w : W)
        → ((next : List ℕ) (w' : W)
            → Along next w'
            → length (v.content w') + v.patience w' < length (v.content w) + v.patience w
            → IsLineOf (n - 1) failures line rest (again next w'))
        → (r : ReadReply × W) → Along stored w
        → Delivers v w 1 r
        → IsLineOf (n - 1) failures line rest (line_reply again n stored r)
    unfolding line_reply line_of after_line
    line_reply_lem again stored w ih (got [], w') a d =
        end_of_input_lem (n - 1) failures line rest stored w'
          (store_last (n - 1) stored line
            (a.0 ∙ ap (λ t. stored ++ take (n - 1 - length stored) (line_of t)) d.0))
          (d.1 ∙ sym (a.1 ∙ ap after_line d.0)) (d.2.0 ∙ a.3) (a.1 ∙ ap after_line d.0)
    line_reply_lem again stored w ih (got (ch ∷ []), w') a d = elim (Bool-cases (ch == newline)) [
      | inl nl ↦
          rw (nl, IsLineOf)
            (end_line_lem (n - 1) failures line rest (store_char (n - 1) stored ch) w'
              (store_last (n - 1) (store_char (n - 1) stored ch) line (
                store_next (n - 1) stored ch line (v.content w) (v.content w') [] a.0 d.0
                  (line_of-newline ch (v.content w') nl)))
              (sym (a.1 ∙ ap after_line d.0 ∙ after_line-newline ch (v.content w') nl))
              (d.3.0 ∙ a.3))
      | inr other ↦
          rw (other, IsLineOf)
            (ih (store_char (n - 1) stored ch) w'
              (
                store_next (n - 1) stored ch line (v.content w) (v.content w') _ a.0 d.0
                    (line_of-other ch (v.content w') other),
                a.1 ∙ ap after_line d.0 ∙ after_line-other ch (v.content w') other,
                length-store_char (n - 1) stored ch a.2,
                d.3.0 ∙ a.3,
              )
              (omega (arith, ap length d.0, d.2)))
    ]
    line_reply_lem again stored w ih (got (ch ∷ b ∷ bs), w') a d = absurd (omega (arith, d.1))
    line_reply_lem again stored w ih (interrupted, w') a d =
        ih stored w'
          (
            a.0 ∙ ap (λ t. stored ++ take (n - 1 - length stored) (line_of t)) (sym d.0),
            a.1 ∙ ap after_line (sym d.0),
            a.2,
            d.2 ∙ a.3,
          )
          (omega (arith, ap length d.0, d.1))
    line_reply_lem again stored w ih (failed, w') a d = (a.2, d.0 ∙ ap suc a.3)

module _ {W : Type 0} (read : W → ℕ → ReadReply × W) (s : IsStream read) where
  read_line_loop_lem :
      (fuel n failures : ℕ) (line rest stored : List ℕ) (w : W)
      → Along s.view n failures line rest stored w
      → length (s.view.content w) + s.view.patience w < fuel
      → IsLineOf s.view (n - 1) failures line rest (read_line_loop read fuel n stored w)
  unfolding read_line_loop
  read_line_loop_lem zero n failures line rest stored w a f = absurd (omega arith)
  read_line_loop_lem (suc fuel) n failures line rest stored w a f =
      line_reply_lem s.view n failures line rest (read_line_loop read fuel n) stored w
        (λ next w' a' m. read_line_loop_lem fuel n failures line rest next w' a' (omega arith))
        (read w 1) a (s.delivers w 1 (omega arith))

  -- On a stream, readLine() with a buffer of `n` bytes, `n` positive, returns when it is given a
  -- round for each byte to come, one for each interruption and one more. It stores the first `n -
  -- 1` bytes of the next line, the newline included, and a null byte, returns their number, and
  -- leaves the stream behind the line, also where the line is longer. Where no byte is stored at
  -- the end of the file, it returns 0 and may store no null byte. No read() has failed then. Or it
  -- returns -1: then one read() has failed, and no more than `n - 1` bytes are stored.
  pub read_line_lem :
      (fuel n : ℕ) (w : W)
      → 0 < n
      → length (s.view.content w) + s.view.patience w < fuel
      → IsLineOf s.view
          (n - 1)
          (s.view.failures w)
          (take (n - 1) (line_of (s.view.content w)))
          (after_line (s.view.content w))
          (read_line read fuel false n w)
  unfolding read_line
  read_line_lem fuel zero w p f = absurd (omega arith)
  read_line_lem fuel (suc m) w p f =
      read_line_loop_lem fuel (suc m) (s.view.failures w)
        (take (suc m - 1) (line_of (s.view.content w))) _ [] w
        (ap (λ i. take i (line_of (s.view.content w))) (omega arith), refl, omega arith, refl) f
