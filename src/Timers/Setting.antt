-- ===== src/Timers/Setting.antt =====
-- itimerspecFromStr() of timers/itimerspec_from_str.c. atoi() is a parameter.
use computer_science_notes.Base.{cut_at}
use computer_science_notes.Base.{ℕ, Option, none, some, List}
use computer_science_notes.Base.Int.{ℤ, pos}

-- `struct itimerspec`.
pub record Itimerspec : Type 0 where
  pub value_sec : ℤ
  pub value_nsec : ℤ
  pub interval_sec : ℤ
  pub interval_nsec : ℤ

abbrev pub colon : ℕ
colon = 58

abbrev pub slash_char : ℕ
slash_char = 47

module _ (atoi : List ℕ → ℤ) where
  -- `(sptr != NULL) ? atoi(sptr + 1) : 0`
  unfoldable pub optional_number : Option (List ℕ) → ℤ
  optional_number none = pos 0
  optional_number (some l) = atoi l

  -- Seconds and nanoseconds, of a part of the string.
  unfoldable pub read_part : List ℕ → ℤ × ℤ
  read_part part = let halves = cut_at slash_char part in (atoi halves.0, optional_number halves.1)

  unfoldable pub read_interval : Option (List ℕ) → ℤ × ℤ
  read_interval none = (pos 0, pos 0)
  read_interval (some part) = read_part part

  -- itimerspecFromStr()
  unfoldable pub itimerspec_from_str : List ℕ → Itimerspec
  itimerspec_from_str str =
      let parts = cut_at colon str in
      let value = read_part parts.0 in
      let interval = read_interval parts.1 in
      record {
        value_sec = value.0;
        value_nsec = value.1;
        interval_sec = interval.0;
        interval_nsec = interval.1;
      }
