-- ===== src/Seqnum/Request.antt =====
-- is_seqnum_sv.c serves a client by the line that it sends.
use computer_science_notes.Base.{
  ℕ, zero, suc, ◌+◌, ◌<◌, ◌%◌, ◌^◌, Option, none, some, List, [], ◌∷◌, ◌++◌, length,
}
use computer_science_notes.Base.Int.{ℤ, pos, negsuc}
use computer_science_notes.Sockets.Reading.{ReadReturn, newline}
use computer_science_notes.Seqnum.Server.{Calls, int_len, Round}

-- How many numbers a line asks for; one that is no positive number asks for none.
abbrev to_ℕ : ℤ → ℕ
to_ℕ (pos n) = n
to_ℕ (negsuc n) = 0

module _ {World : Type 0} (k : Calls World) where
  abbrev pub asked : List ℕ → ℕ
  asked [] = 0
  asked (b ∷ bs) = to_ℕ (k.atoi ((b ∷ bs) ++ 0 ∷ []))

  -- What the server does for a client that asks for so many numbers: it grants them, and calls
  -- write() once with the next number in decimal and a newline, whether that call fails or not.
  abbrev pub served : ℕ → ℕ → ℕ → World → Round World
  served fd seq_num zero w = ([], seq_num, k.close fd w)
  served fd seq_num (suc n) w = (
    record { start = seq_num; size = suc n } ∷ [],
    (seq_num + suc n) % 2 ^ 32,
    k.close fd (k.write fd (k.print_int (pos seq_num) ++ newline ∷ []) w).1,
  )

  -- The number is a positive int, and its text with the newline fits in seqNumStr.
  abbrev pub IsPrintable : ℕ → Type 0
  IsPrintable seq_num = (seq_num < 2 ^ 31) × (length (k.print_int (pos seq_num)) + 1 < int_len)

-- readLine() has not returned -1.
abbrev NoError : {World : Type 0} → Option (ReadReturn World) → Type 0
NoError (some (none, buffer, w)) = ⊥
NoError _ = Unit
