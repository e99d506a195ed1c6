-- ===== src/Sockets/Reading.antt =====
-- readn() of sockets/rdwrn.c and readLine() of sockets/read_line.c, over a read() that is a
-- parameter: the descriptor and what stands behind it are the state `W`, which a call changes.
use computer_science_notes.Base.{
  ℕ, zero, suc, ◌-◌, Bool, true, false, Option, none, some, List, [], ◌∷◌, ◌++◌, length, ltb, ◌==◌,
}

-- What read() gives: the bytes, none of them at the end of the file; -1 with EINTR; or -1 with
-- another error.
pub data ReadReply : Type 0 where
  got : List ℕ → ReadReply
  interrupted : ReadReply
  failed : ReadReply

-- What a routine returns, with -1 as `none`; what it has stored in the caller's buffer; and the
-- state.
abbrev pub ReadReturn : Type 0 → Type 0
ReadReturn W = Option ℕ × List ℕ × W

abbrev pub newline : ℕ
newline = 10

-- `if (totRead < n - 1) { totRead++; *buf++ = ch; }`, where `bound` is `n - 1`.
unfoldable pub store_char : ℕ → List ℕ → ℕ → List ℕ
store_char bound stored ch = elim (ltb (length stored) bound) [
  | true ↦ stored ++ ch ∷ []
  | false ↦ stored
]

module _ {W : Type 0} where
  -- The body of readn()'s loop behind read(), where `again` is the next round.
  unfoldable pub readn_reply :
      (List ℕ → W → Option (ReadReturn W)) → List ℕ → ReadReply × W → Option (ReadReturn W)
  readn_reply again stored (got [], w) = some (some (length stored), stored, w)
  readn_reply again stored (got (b ∷ bs), w) = again (stored ++ b ∷ bs) w
  readn_reply again stored (interrupted, w) = again stored w
  readn_reply again stored (failed, w) = some (none, stored, w)

  -- readLine() at its end, where it writes the null byte.
  unfoldable pub end_line : List ℕ → W → Option (ReadReturn W)
  end_line stored w = some (some (length stored), stored ++ 0 ∷ [], w)

  -- readLine() at the end of the file.
  unfoldable pub end_of_input : List ℕ → W → Option (ReadReturn W)
  end_of_input [] w = some (some 0, [], w)
  end_of_input (b ∷ bs) w = end_line (b ∷ bs) w

  -- The body of readLine()'s loop behind read(). A read() of one byte gives no second one.
  unfoldable pub line_reply :
      (List ℕ → W → Option (ReadReturn W)) → ℕ → List ℕ → ReadReply × W → Option (ReadReturn W)
  line_reply again n stored (interrupted, w) = again stored w
  line_reply again n stored (failed, w) = some (none, stored, w)
  line_reply again n stored (got [], w) = end_of_input stored w
  line_reply again n stored (got (ch ∷ _), w) = elim (ch == newline) [
    | true ↦ end_line (store_char (n - 1) stored ch) w
    | false ↦ again (store_char (n - 1) stored ch) w
  ]

module _ {W : Type 0} (read : W → ℕ → ReadReply × W) where
  -- The loop of readn() for at most `fuel` rounds, with the bytes stored so far, of which totRead
  -- is the number; `none` where it has not ended.
  unfoldable pub readn_loop : ℕ → ℕ → List ℕ → W → Option (ReadReturn W)
  readn_loop zero n stored w = none
  readn_loop (suc fuel) n stored w = elim (ltb (length stored) n) [
    | true ↦ readn_reply (readn_loop fuel n) stored (read w (n - length stored))
    | false ↦ some (some (length stored), stored, w)
  ]

  -- readn()
  unfoldable pub readn : ℕ → ℕ → W → Option (ReadReturn W)
  readn fuel n w = readn_loop fuel n [] w

  -- The loop of readLine() for at most `fuel` rounds.
  unfoldable pub read_line_loop : ℕ → ℕ → List ℕ → W → Option (ReadReturn W)
  read_line_loop zero n stored w = none
  read_line_loop (suc fuel) n stored w = line_reply (read_line_loop fuel n) n stored (read w 1)

  -- readLine(), where `no_buffer` says that the buffer is NULL.
  unfoldable pub read_line : ℕ → Bool → ℕ → W → Option (ReadReturn W)
  read_line fuel true n w = some (none, [], w)
  read_line fuel false zero w = some (none, [], w)
  read_line fuel false (suc m) w = read_line_loop fuel (suc m) [] w
