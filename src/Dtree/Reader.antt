-- ===== src/Dtree/Reader.antt =====
-- processInotifyEvents() of inotify_dtree.c.
use computer_science_notes.Dtree.Kernel.{ReadResult}
use computer_science_notes.Base.{Option}
use computer_science_notes.Base.{
  ℕ, zero, suc, ◌+◌, ◌-◌, Bool, true, false, not, none, some, List, [], ◌∷◌, ◌++◌, if◌then◌else◌,
  ◌==◌, ltb,
}
use computer_science_notes.Base.Int.{ℤ, pos, negsuc}
use computer_science_notes.Dtree.Kernel.{Kernel, Event, got, end_of_file, interrupted, read_failed}
use computer_science_notes.Dtree.State.{
  M, pure, gets, undefined_read, undefined_write, exit_failure, modify, ◌>>=◌, ◌>>◌, call,
}
use computer_science_notes.Dtree.Events.{
  event_len, inotify_read_buf_len, process_next_inotify_event,
}

-- The events that are left when the pointer has moved on by so many bytes.
unfoldable pub skip_bytes : (k : Kernel) → ℕ → List Event → List Event
skip_bytes k n [] = []
skip_bytes k n (ev ∷ evs) =
    let rest = skip_bytes k (n - event_len k ev) evs in if n == 0 then ev ∷ evs else rest

-- `evp` as the events from there on, with `buf + numRead - evp` and `firstTry`.
pub record Cursor : Type 0 where
  pub events : List Event
  pub remaining : ℕ
  pub first_try : Bool

-- The size that the first read() asks for: with the option -b, whatever its argument says, also
-- where that is more than the array has.
abbrev pub read_size : (k : Kernel) → ℤ → ℕ
read_size k (pos zero) = inotify_read_buf_len k
read_size k (pos (suc n)) = suc n
read_size k (negsuc _) = inotify_read_buf_len k

module _ {k : Kernel} where
  -- What the second read() gave. The code means to tell EINTR by the result -1 but tests
  -- `errno != -1`, which always holds, so that it adds the -1 to `numRead`.
  unfoldable pub take_more : Cursor → ReadResult → M k Cursor
  take_more c (got evs n) = do
    modify (λ s. record s { inotify_read_cnt = s.inotify_read_cnt + 1 })
    pure (record { events = c.events ++ evs; remaining = c.remaining + n; first_try = false })
  take_more c interrupted = do
    modify (λ s. record s { inotify_read_cnt = s.inotify_read_cnt + 1 })
    pure (record { events = c.events; remaining = c.remaining - 1; first_try = false })
  take_more c end_of_file = exit_failure
  take_more c read_failed = exit_failure

  -- The second read(), at a hanging IN_MOVED_FROM.
  unfoldable pub read_more : Cursor → M k Cursor
  read_more c = do
    fd ← gets (λ s. s.inotify_fd)
    r ← call (λ w. k.read_events w fd (inotify_read_buf_len k - c.remaining))
    take_more c r

  -- The end of a round, with `evLen`.
  unfoldable pub move_on : Cursor → Option ℕ → M k Cursor
  move_on c none = read_more c
  move_on c (some n) =
      if ltb 0 n
      then pure (record {
        events = skip_bytes k n c.events;
        remaining = c.remaining - n;
        first_try = true;
      })
      else read_more c

  -- One round of the loop at an event.
  unfoldable pub round : Event → List Event → Cursor → M k Cursor
  round ev rest c = process_next_inotify_event ev rest c.remaining c.first_try >>= move_on c

  -- A round where the pointer is.
  unfoldable pub next_round : Cursor → M k Cursor
  next_round c = elim c.events [ [] ↦ undefined_read | ev ∷ rest ↦ round ev rest c ]

  -- The loop, for at most `fuel` rounds: whether it came to its end. The pointer's distance from
  -- the end of the buffer is positive as long as the loop runs.
  unfoldable pub process_buffer : ℕ → Cursor → M k Bool
  process_buffer zero c = pure (not (ltb 0 c.remaining))
  process_buffer (suc fuel) c =
      let next = next_round c >>= process_buffer fuel in
      if ltb 0 c.remaining then next else pure true

  -- What the first read() gave; more bytes than the array `buf` has are written past its end.
  unfoldable pub process_read : ℕ → ReadResult → M k Bool
  process_read fuel (got evs n) = if ltb (inotify_read_buf_len k) n then undefined_write else do
    modify (λ s. record s { inotify_read_cnt = s.inotify_read_cnt + 1 })
    process_buffer fuel (record { events = evs; remaining = n; first_try = true })
  process_read fuel interrupted = exit_failure
  process_read fuel end_of_file = exit_failure
  process_read fuel read_failed = exit_failure

  -- processInotifyEvents()
  unfoldable pub process_inotify_events : ℕ → M k Bool
  process_inotify_events fuel = do
    s ← gets (λ s. s)
    r ← call (λ w. k.read_events w s.inotify_fd (read_size k s.read_buffer_size))
    process_read fuel r
