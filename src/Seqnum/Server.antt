-- ===== src/Seqnum/Server.antt =====
-- is_seqnum_sv.c from its listening socket on: the loop of main() over its clients.
use computer_science_notes.Base.{
  ℕ, zero, suc, ◌+◌, ◌-◌, ◌%◌, ◌^◌, false, Option, none, some, List, [], ◌∷◌, ◌++◌, take, ltb,
  if◌then◌else◌,
}
use computer_science_notes.Base.Int.{ℤ, pos, negsuc}
use computer_science_notes.Sockets.Reading.{ReadReply, ReadReturn, newline, read_line}

-- The calls of the loop, on a type of states of the outside. accept() and write() may fail; `atoi`
-- reads a buffer up to its null byte, and `print_int` is the conversion `%d`.
pub record Calls (World : Type 0) : Type 0 where
  pub accept : World → Option ℕ × World
  pub read : ℕ → World → ℕ → ReadReply × World
  pub write : ℕ → List ℕ → World → Option ℕ × World
  pub close : ℕ → World → World
  pub atoi : List ℕ → ℤ
  pub print_int : ℤ → List ℕ

-- INT_LEN
abbrev pub int_len : ℕ
int_len = 30

-- A uint32_t that is read as an int.
abbrev pub as_int : ℕ → ℤ
as_int n = if ltb n (2 ^ 31) then pos n else negsuc (2 ^ 32 - 1 - n)

-- A sequence that the server has granted: `size` numbers from `start` on.
pub record Grant : Type 0 where
  pub start : ℕ
  pub size : ℕ

-- What has been granted, `seqNum`, and the state.
abbrev pub Round : Type 0 → Type 0
Round World = List Grant × ℕ × World

-- What is granted in a round and in the rounds behind it.
abbrev pub and_then :
    {World : Type 0}
    → Option (Round World)
    → (ℕ → World → Option (Round World))
    → Option (Round World)
and_then none again = none
and_then (some (grants, seq_num, w)) again = elim (again seq_num w) [
  | none ↦ none
  | some (more, last, w') ↦ some (grants ++ more, last, w')
]

module _ {World : Type 0} (k : Calls World) where
  open k use {accept, read, write, close, atoi, print_int}

  -- `snprintf(seqNumStr, INT_LEN, "%d\n", seqNum)`
  abbrev pub number_line : ℕ → List ℕ
  number_line seq_num = take (int_len - 1) (print_int (as_int seq_num) ++ newline ∷ [])

  -- From `if (reqLen <= 0)` on; a failed write() is only reported.
  unfoldable pub grant : ℕ → ℕ → ℤ → World → Round World
  grant fd seq_num (negsuc n) w = ([], seq_num, close fd w)
  grant fd seq_num (pos zero) w = ([], seq_num, close fd w)
  grant fd seq_num (pos (suc n)) w = (
    record { start = seq_num; size = suc n } ∷ [],
    (seq_num + suc n) % 2 ^ 32,
    close fd (write fd (number_line seq_num) w).1,
  )

  -- From the test of what readLine() has returned on.
  unfoldable pub answer : ℕ → ℕ → Option (ReadReturn World) → Option (Round World)
  answer fd seq_num none = none
  answer fd seq_num (some (none, buffer, w)) = some ([], seq_num, close fd w)
  answer fd seq_num (some (some zero, buffer, w)) = some ([], seq_num, close fd w)
  answer fd seq_num (some (some (suc c), buffer, w)) = some (grant fd seq_num (atoi buffer) w)

  -- A client's round, where readLine() has so much fuel.
  unfoldable pub serve_client : ℕ → ℕ → ℕ → World → Option (Round World)
  serve_client fuel fd seq_num w = answer fd seq_num (read_line (read fd) fuel false int_len w)

  unfoldable pub serve_accepted : ℕ → ℕ → Option ℕ × World → Option (Round World)
  serve_accepted fuel seq_num (none, w) = some ([], seq_num, w)
  serve_accepted fuel seq_num (some fd, w) = serve_client fuel fd seq_num w

  -- The first `rounds` rounds of the loop.
  unfoldable pub serve : ℕ → ℕ → ℕ → World → Option (Round World)
  unfolding serve_accepted
  serve zero fuel seq_num w = some ([], seq_num, w)
  serve (suc rounds) fuel seq_num w =
      and_then (serve_accepted fuel seq_num (accept w)) (serve rounds fuel)
