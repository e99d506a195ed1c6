-- ===== src/Dtree/Ending.antt =====
-- The loop of processInotifyEvents() in inotify_dtree.c comes to its end.
use computer_science_notes.Base.{◌∙◌}
use computer_science_notes.Base.{
  ℕ, zero, suc, ◌+◌, ◌-◌, ◌≤◌, ◌<◌, ◌≡◌, refl, ◌≢◌, ◌⊎◌, inl, inr, Bool, true, Option, none, some,
  List, [], ◌∷◌, ◌∙◌, ap, length, arith, ltb,
}
use mathlib.Core.Path.{subst}
use computer_science_notes.Dtree.Kernel.{Kernel, Event}
use computer_science_notes.Dtree.State.{Globals}
use computer_science_notes.Dtree.Events
use computer_science_notes.Dtree.Events.{event_len, inotify_read_buf_len}
use computer_science_notes.Dtree.Reader.{
  Cursor, skip_bytes, move_on, round, next_round, process_buffer,
}
use computer_science_notes.Dtree.Consumed.{Consumes, one, two, all, Returned}
use computer_science_notes.Dtree.Progress.{process_next_inotify_event-Returned}
use computer_science_notes.Dtree.Invariant.Rules.{Post, Post-bind}

-- The bytes that some events take in the buffer.
abbrev pub bytes : Kernel → List Event → ℕ
bytes k [] = 0
bytes k (ev ∷ evs) = event_len k ev + bytes k evs

-- No IN_MOVED_FROM of a directory hangs at the end.
abbrev pub IsClosed : List Event → Type 0
IsClosed [] = Unit
IsClosed (ev ∷ []) = Events.branch_of ev.mask ≢ Events.moved_from
IsClosed (ev ∷ next_ev ∷ evs) = IsClosed (next_ev ∷ evs)

IsClosed-tail : (ev : Event) (evs : List Event) → IsClosed (ev ∷ evs) → IsClosed evs
IsClosed-tail ev [] h = tt
IsClosed-tail ev (e ∷ evs) h = h

-- The state of the loop between two rounds: the bytes left are those of the events left, or none.
abbrev AtEvents : Kernel → ℕ → Cursor → Type 0
AtEvents k fuel c =
    (c.remaining ≡ bytes k c.events) × IsClosed c.events × (length c.events ≤ fuel)
    ⊎ (c.remaining ≡ 0)

skip_bytes-zero : (k : Kernel) (n : ℕ) (evs : List Event) → n ≡ 0 → skip_bytes k n evs ≡ evs
unfolding skip_bytes
skip_bytes-zero k n [] e = refl
skip_bytes-zero k n (ev ∷ evs) e = ground arith

skip_bytes-cons :
    (k : Kernel) (n : ℕ) (ev : Event) (evs : List Event)
    → 0 < n
    → skip_bytes k n (ev ∷ evs) ≡ skip_bytes k (n - event_len k ev) evs
unfolding skip_bytes
skip_bytes-cons k n ev evs h = ground arith

module _ (k : Kernel) (sized : 0 < k.event_size) where
  skip_one : (ev : Event) (evs : List Event) → skip_bytes k (event_len k ev) (ev ∷ evs) ≡ evs
  skip_one ev evs =
      skip_bytes-cons k (event_len k ev) ev evs (omega arith)
      ∙ skip_bytes-zero k _ evs (omega arith)

  skip_two :
      (ev next_ev : Event) (evs : List Event)
      → skip_bytes k (event_len k ev + event_len k next_ev) (ev ∷ next_ev ∷ evs) ≡ evs
  skip_two ev next_ev evs =
      skip_bytes-cons k _ ev (next_ev ∷ evs) (omega arith)
      ∙ skip_bytes-cons k _ next_ev evs (omega arith)
      ∙ skip_bytes-zero k _ evs (omega arith)

  -- The next cursor, whatever was consumed.
  consumed :
      (fuel n size : ℕ) (ev : Event) (rest : List Event)
      → size ≡ bytes k (ev ∷ rest)
      → size ≤ inotify_read_buf_len k
      → IsClosed (ev ∷ rest)
      → length rest ≤ fuel
      → {before after : ℕ} → Consumes k ev rest size before after n
      → AtEvents k fuel
          (record { events = skip_bytes k n (ev ∷ rest); remaining = size - n; first_try = true })
  consumed fuel n size ev rest e le cl len (one q _ _ _) = inl (
    rw (q, skip_one ev rest) (omega (arith, e)),
    rw (q, skip_one ev rest) (IsClosed-tail ev rest cl),
    rw (q, skip_one ev rest) len,
  )
  consumed fuel n size ev rest e le cl len (two next_ev more p q _ _) =
      let left : skip_bytes k n (ev ∷ rest) ≡ more = rw (q, p) (skip_two ev next_ev more) in
      let closed : IsClosed more =
        IsClosed-tail next_ev more (subst IsClosed p (IsClosed-tail ev rest cl)) in
      inl (
        rw left (omega (arith, e, q, ap (bytes k) p)),
        rw left closed,
        rw left (omega (arith, len, ap length p)),
      )
  consumed fuel n size ev rest e le cl len (all q _) = inr (omega arith)

  not_hanging :
      (ev : Event) (rest : List Event) (size : ℕ) (first : Bool)
      → size ≡ bytes k (ev ∷ rest)
      → IsClosed (ev ∷ rest)
      → {before after : ℕ} → ¬ Returned k ev rest size first before after none
  not_hanging ev [] size first e cl h = cl h.1
  not_hanging ev (x ∷ rest) size first e cl h = absurd (omega (arith, h.2, e))

  Consumes-pos :
      (ev : Event) (rest : List Event) (size before after n : ℕ)
      → Consumes k ev rest size before after n
      → ltb 0 n ≡ true
  Consumes-pos ev rest size before after n (one q _ _ _) = ground arith
  Consumes-pos ev rest size before after n (two next_ev more p q _ _) = ground arith
  Consumes-pos ev rest size before after n (all q _) = ground arith

  move_on_ends :
      (fuel : ℕ) (ev : Event) (rest : List Event) (c : Cursor) (r : Option ℕ) (t : Globals k)
      → c.events ≡ ev ∷ rest
      → c.remaining ≡ bytes k (ev ∷ rest)
      → c.remaining ≤ inotify_read_buf_len k
      → IsClosed (ev ∷ rest)
      → length rest ≤ fuel
      → (before after : ℕ) → Returned k ev rest c.remaining c.first_try before after r
      → Post (λ c' _. AtEvents k fuel c' × (c'.remaining ≤ inotify_read_buf_len k)) (move_on c r t)
  unfolding move_on
  move_on_ends fuel ev rest c none t e size le cl len before after h =
      absurd (not_hanging ev rest c.remaining c.first_try size cl h)
  move_on_ends fuel ev rest c (some n) t e size le cl len before after h =
      rw (Consumes-pos ev rest c.remaining _ _ n h, e, Post)
        (consumed fuel n c.remaining ev rest size le cl len h, omega (arith, le))

  at_end :
      (fuel : ℕ) (c : Cursor) (s : Globals k)
      → c.remaining ≡ 0
      → Post (λ b _. b ≡ true) (process_buffer fuel c s)
  unfolding process_buffer
  at_end zero c s e = rw (e, Post) refl
  at_end (suc fuel) c s e = rw (e, Post) refl

  more_left :
      (ev : Event) (rest : List Event) (size : ℕ) → size ≡ bytes k (ev ∷ rest) → ltb 0 size ≡ true
  more_left ev rest size e = ground arith

  loop_ends :
      (fuel : ℕ) (evs : List Event) (size : ℕ) (first : Bool) (s : Globals k)
      → AtEvents k fuel (record { events = evs; remaining = size; first_try = first })
      → size ≤ inotify_read_buf_len k
      → Post
          (λ b _. b ≡ true)
          (process_buffer fuel (record { events = evs; remaining = size; first_try = first }) s)
  unfolding process_buffer next_round round
  loop_ends fuel evs size first s (inr e) le = at_end fuel _ s e
  loop_ends fuel [] size first s (inl h) le = at_end fuel _ s h.0
  loop_ends zero (ev ∷ rest) size first s (inl h) le = absurd (omega (arith, h.2))
  loop_ends (suc fuel) (ev ∷ rest) size first s (inl h) le =
      let c : Cursor = record { events = ev ∷ rest; remaining = size; first_try = first } in
      rw (more_left ev rest size h.0, Post)
        (Post-bind (λ c' _. AtEvents k fuel c' × (c'.remaining ≤ inotify_read_buf_len k)) _
          (round ev rest c) (process_buffer fuel) s
          (Post-bind (λ r t. Returned k ev rest size first s.reinit_cnt t.reinit_cnt r) _
            (Events.process_next_inotify_event ev rest size first) (move_on c) s
            (process_next_inotify_event-Returned ev rest size first s)
            (λ r t p.
              move_on_ends fuel ev rest c r t refl h.0 le h.1 (omega (arith, h.2)) s.reinit_cnt
                t.reinit_cnt p))
          (λ c' t p. loop_ends fuel c'.events c'.remaining c'.first_try t p.0 p.1))

-- Where the first read() gives events that fit in the buffer, with no IN_MOVED_FROM of a directory
-- at the end, as many rounds as events are enough for the loop.
pub process_buffer_ends :
    (k : Kernel) (evs : List Event) (first_try : Bool) (fuel : ℕ) (s : Globals k)
    → 0 < k.event_size
    → bytes k evs ≤ inotify_read_buf_len k
    → IsClosed evs
    → length evs ≤ fuel
    → Post
        (λ b _. b ≡ true)
        (process_buffer fuel
          (record { events = evs; remaining = bytes k evs; first_try = first_try })
          s)
process_buffer_ends k evs first fuel s sized le cl len =
    loop_ends k sized fuel evs (bytes k evs) first s (inl (refl, cl, len)) le
