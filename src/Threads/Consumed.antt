-- ===== src/Threads/Consumed.antt =====
-- prod_condvar.c: main() consumes every unit, and never waits in vain where there is one.
use computer_science_notes.Base.{◌^◌}
use computer_science_notes.Base.{
  ℕ, ◌<◌, ◌≡◌, ◌≢◌, refl, Bool, true, false, Bool-cases, inl, inr, some, List, [], ◌∷◌, get_elem?,
  arith,
}
use native.Mathlib.Decide.{dec_lt}
use computer_science_notes.Base.Counts.{count-find, total, total-find}
use computer_science_notes.Threads.Producing.{
  ProducerPlace, making, adding, opening, telling, ended, Producer, ConsumerPlace, hiring, entering,
  looking, sleeping, rising, consuming, leaving, deciding, closed, Market, Turn, hire, hired, enter,
  look_wait, look_more, rise_spuriously, reenter, consume, consumed_all, leave, close, go_on, make,
  add, open_up, tell, Reach,
}
use computer_science_notes.Threads.Produced.{
  sum, holds_lock, is_pending, unmade, main_holds, IsSound, Reach-IsSound,
}

-- The variables of the program are ints, and hold their values.
abbrev pub HasInts : Market → Type 0
HasInts s = (s.tot_required < 2 ^ 31) × (s.num_consumed < 2 ^ 31) × (s.avail < 2 ^ 31)

-- Once main() has exited, a unit was asked for, it has consumed as many as were asked for, none is
-- available and no producer has one to add.
abbrev pub AtExit : List ℕ → Market → ConsumerPlace → Type 0
AtExit counts s closed =
    (0 < sum counts)
    × (s.num_consumed ≡ sum counts)
    × (s.avail ≡ 0)
    × (total unmade s.producers ≡ 0)
AtExit counts s _ = Unit

consumed-AtExit :
    {counts : List ℕ} {s : Market}
    → IsSound counts s
    → (m : ConsumerPlace) → s.main ≡ m
    → AtExit counts s m
consumed-AtExit c m e = ground (arith, c)

-- Where no argument is negative and they add up to less than 2^31, the ints of the program do not
-- overflow in any state; and main() exits only where a unit is asked for, and then it has consumed
-- as many as are asked for: none is available and no producer has one to add.
pub closed_all_consumed :
    {counts : List ℕ} {s : Market}
    → Reach counts s
    → sum counts < 2 ^ 31
    → HasInts s × AtExit counts s s.main
closed_all_consumed {s = s} r small =
    let c = Reach-IsSound r in
    (
      (
        omega (arith, c.planned),
        omega (arith, c.planned, c.accounts),
        omega (arith, c.planned, c.accounts),
      ),
      consumed-AtExit c s.main refl,
    )

abbrev pub is_spurious : {s t : Market} → Turn s t → Bool
is_spurious (rise_spuriously p) = true
is_spurious _ = false

-- Some step can be taken that is not a spurious wake-up.
abbrev pub CanTurn : Market → Type 0
CanTurn s = (t : Market) × (m : Turn s t) × (is_spurious m ≡ false)

module _ {counts : List ℕ} {s : Market} (c : IsSound counts s) (x : s.main ≢ closed) where
  abbrev At : ℕ → Producer → Type 0
  At i p = get_elem? s.producers i ≡ some p

  -- A producer that is past pthread_mutex_lock().
  goes_on :
      (i : ℕ) (p : Producer) (q : ProducerPlace)
      → At i p
      → p.place ≡ q
      → q ≢ making
      → q ≢ ended
      → CanTurn s
  goes_on i p making at e m n = absurd (m refl)
  goes_on i p adding at e m n = (_, add i p x at e, refl)
  goes_on i p opening at e m n = (_, open_up i p x at e, refl)
  goes_on i p telling at e m n = (_, tell i p x at e, refl)
  goes_on i p ended at e m n = absurd (n refl)

  -- Who waits for the mutex gets it, or its holder goes on.
  locker_moves : main_holds s.main ≡ 0 → (0 < s.mutex → CanTurn s) → CanTurn s
  locker_moves h f = elim (dec_lt 0 s.mutex) [
    | yes q ↦ f q
    | no q ↦
        let (i, p, at, l) = count-find holds_lock s.producers (ground arith) in
        goes_on i p p.place at refl (ground arith) (ground arith)
  ]

  -- A producer that has a unit to add.
  maker_moves :
      (i : ℕ) (p : Producer) (q : ProducerPlace)
      → At i p
      → p.place ≡ q
      → 0 < unmade p
      → main_holds s.main ≡ 0
      → CanTurn s
  maker_moves i p making at e u h =
      locker_moves h (λ q. (_, make i p x at e (ground arith) q, refl))
  maker_moves i p adding at e u h = goes_on i p adding at e (λ q. cc) (λ q. cc)
  maker_moves i p opening at e u h = goes_on i p opening at e (λ q. cc) (λ q. cc)
  maker_moves i p telling at e u h = goes_on i p telling at e (λ q. cc) (λ q. cc)
  maker_moves i p ended at e u h = absurd (ground arith)

  sleeper_moves : 0 < sum counts → s.main ≡ sleeping → CanTurn s
  sleeper_moves k e = elim (dec_lt 0 s.avail) [
    | yes q ↦
        let (i, p, at, l) = count-find is_pending s.producers (ground arith) in
        goes_on i p p.place at refl (ground arith) (ground arith)
    | no q ↦
        let (i, p, at, l) = total-find unmade s.producers (ground arith) in
        maker_moves i p p.place at refl l (ground arith)
  ]

  decider_moves : s.main ≡ deciding → CanTurn s
  decider_moves e = elim (Bool-cases s.done) [
    | inl d ↦ (_, close e d, refl)
    | inr d ↦ (_, go_on e d, refl)
  ]

  main_moves : (m : ConsumerPlace) → 0 < sum counts → s.main ≡ m → CanTurn s
  main_moves (hiring []) k e = (_, hired e, refl)
  main_moves (hiring (cnt ∷ rest)) k e = (_, hire cnt rest e, refl)
  main_moves entering k e = locker_moves (ground arith) (λ q. (_, enter e q, refl))
  main_moves looking k e = elim (dec_lt 0 s.avail) [
    | yes q ↦ (_, look_more e q, refl)
    | no q ↦ (_, look_wait e (omega arith), refl)
  ]
  main_moves sleeping k e = sleeper_moves k e
  main_moves rising k e = locker_moves (ground arith) (λ q. (_, reenter e q, refl))
  main_moves consuming k e = elim (dec_lt 0 s.avail) [
    | yes q ↦ (_, consume e q, refl)
    | no q ↦ (_, consumed_all e (omega arith), refl)
  ]
  main_moves leaving k e = (_, leave e, refl)
  main_moves deciding k e = decider_moves e
  main_moves closed k e = absurd (x e)

-- Where a unit is asked for there is no deadlock, and no signal is lost: unless main() has exited, a
-- step can be taken that is not a spurious wake-up.
pub unclosed-CanTurn :
    {counts : List ℕ} {s : Market} → Reach counts s → 0 < sum counts → s.main ≢ closed → CanTurn s
unclosed-CanTurn {s = s} r k x = main_moves (Reach-IsSound r) x s.main k refl
