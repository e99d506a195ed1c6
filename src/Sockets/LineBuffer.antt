-- ===== src/Sockets/LineBuffer.antt =====
-- readLineBuf() of sockets/read_line_buf.c and read_line_buf.h, over a read() that is a parameter.
use computer_science_notes.Base.{
  ℕ, zero, suc, Bool, true, false, not, Option, none, some, List, [], ◌∷◌, ◌++◌, length, drop,
  get_or, ltb, ◌==◌, ◌+◌,
}
use computer_science_notes.Base.Int.{ℤ, pos, negsuc, minus_one}
use computer_science_notes.Sockets.Reading.{
  ReadReply, got, interrupted, failed, newline, store_char,
}

abbrev pub rl_max_buf : ℕ
rl_max_buf = 10

-- `struct ReadLineBuf`, without the descriptor, which the parameter stands for.
pub record ReadLineBuf : Type 0 where
  pub buf : List ℕ
  pub next : ℕ
  pub len : ℤ

-- readLineBufInit() on a structure whose array holds some bytes.
unfoldable pub read_line_buf_init : List ℕ → ReadLineBuf
read_line_buf_init bytes = record { buf = bytes; next = 0; len = pos 0 }

-- `rlbuf->next >= rlbuf->len`
unfoldable pub used_up : ℕ → ℤ → Bool
used_up next (pos len) = not (ltb next len)
used_up next (negsuc _) = true

-- A call's result, with -1 as `none`; what it has stored; the structure; and the state.
abbrev pub Answer : Type 0 → Type 0
Answer W = Option ℕ × List ℕ × ReadLineBuf × W

module _ {W : Type 0} where
  -- The round of the loop behind the refilling: the next byte is taken.
  unfoldable pub take_char :
      (List ℕ → ReadLineBuf → W → Option (Answer W))
      → ℕ
      → List ℕ
      → ReadLineBuf
      → W
      → Option (Answer W)
  take_char again n stored rl w =
      let c = get_or rl.buf rl.next 0 in
      let rl' : ReadLineBuf = record rl { next = rl.next + 1 } in
      elim (c == newline) [
        | true ↦ some (some (length (store_char n stored c)), store_char n stored c, rl', w)
        | false ↦ again (store_char n stored c) rl' w
      ]

  -- What a round does with the reply of read().
  unfoldable pub refill :
      (List ℕ → ReadLineBuf → W → Option (Answer W))
      → ℕ
      → List ℕ
      → ReadLineBuf
      → ReadReply × W
      → Option (Answer W)
  refill again n stored rl (got [], w) =
      some (some (length stored), stored, record rl { len = pos 0 }, w)
  refill again n stored rl (got (b ∷ bs), w) =
      take_char again n stored
        (record {
          buf = (b ∷ bs) ++ drop (length (b ∷ bs)) rl.buf;
          next = 0;
          len = pos (length (b ∷ bs));
        })
        w
  refill again n stored rl (interrupted, w) = some (none, stored, record rl { len = minus_one }, w)
  refill again n stored rl (failed, w) = some (none, stored, record rl { len = minus_one }, w)

module _ {W : Type 0} (read : W → ℕ → ReadReply × W) where
  -- The loop of readLineBuf() for at most `fuel` rounds, with the bytes stored so far.
  unfoldable pub buffered_loop : ℕ → ℕ → List ℕ → ReadLineBuf → W → Option (Answer W)
  buffered_loop zero n stored rl w = none
  buffered_loop (suc fuel) n stored rl w = elim (used_up rl.next rl.len) [
    | true ↦ refill (buffered_loop fuel n) n stored rl (read w rl_max_buf)
    | false ↦ take_char (buffered_loop fuel n) n stored rl w
  ]

  -- readLineBuf(), where `no_buffer` says that the buffer is NULL.
  unfoldable pub read_line_buf : ℕ → Bool → ℕ → ReadLineBuf → W → Option (Answer W)
  read_line_buf fuel true n rl w = some (none, [], rl, w)
  read_line_buf fuel false zero rl w = some (none, [], rl, w)
  read_line_buf fuel false (suc m) rl w = buffered_loop fuel (suc m) [] rl w
