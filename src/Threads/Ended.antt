-- ===== src/Threads/Ended.antt =====
-- thread_multijoin.c: main() leaves no thread behind, and never waits in vain.
use computer_science_notes.Base.{
  ℕ, zero, suc, ◌<◌, ◌≡◌, ◌≢◌, refl, Bool, true, false, some, length, get_elem?, arith,
}
use native.Mathlib.Decide.{dec_lt}
use computer_science_notes.Base.Counts.{get_elem?_exists, weight-le-count, count-find}
use computer_science_notes.Threads.Joining.{
  Place, working, updating, unlocking, signalling, returned, Tstate, ts_alive, ts_terminated,
  ts_joined, Thread, MainPlace, creating, testing, locking, checking, asleep, waking, scanning,
  releasing, exited, Group, Move, create, created, test_more, test_end, lock, check_wait,
  check_more, wake_spuriously, relock, join, pass_over, scanned, release, thread_lock,
  thread_update, thread_unlock, thread_signal, Reach,
}
use computer_science_notes.Threads.Joined.{
  holds_lock, is_pending, is_terminated, is_unjoined, is_odd, main_holds, IsSound, Reach-IsSound,
}

-- When main() has exited it has joined every thread it was asked for, and each has returned.
pub exited-joined :
    {n : ℕ} {s : Group} (i : ℕ) (t : Thread)
    → Reach n s
    → s.main ≡ exited
    → get_elem? s.threads i ≡ some t
    → (length s.threads ≡ n) × (t.place ≡ returned) × (t.state ≡ ts_joined)
exited-joined {s = s} i t r e at =
    let c = Reach-IsSound r in
    ground (
      arith,
      c,
      weight-le-count is_unjoined s.threads i t at,
      weight-le-count is_odd s.threads i t at,
    )

abbrev pub is_spurious : {s t : Group} → Move s t → Bool
is_spurious (wake_spuriously p) = true
is_spurious _ = false

-- Some step can be taken that is not a spurious wake-up.
abbrev pub CanMove : Group → Type 0
CanMove s = (t : Group) × (m : Move s t) × (is_spurious m ≡ false)

module _ {n : ℕ} {s : Group} (c : IsSound n s) where
  abbrev At : ℕ → Thread → Type 0
  At i t = get_elem? s.threads i ≡ some t

  -- A thread that is past pthread_mutex_lock() and has not returned.
  goes_on :
      (i : ℕ) (t : Thread) (p : Place)
      → At i t
      → t.place ≡ p
      → p ≢ working
      → p ≢ returned
      → CanMove s
  goes_on i t working at e w r = absurd (w refl)
  goes_on i t updating at e w r = (_, thread_update i t at e, refl)
  goes_on i t unlocking at e w r = (_, thread_unlock i t at e, refl)
  goes_on i t signalling at e w r = (_, thread_signal i t at e, refl)
  goes_on i t returned at e w r = absurd (r refl)

  -- Where the mutex is not free and main() has not got it, a thread has.
  holder_moves : s.mutex ≡ 0 → main_holds s.main ≡ 0 → CanMove s
  holder_moves e h =
      let (i, t, at, l) = count-find holds_lock s.threads (ground arith) in
      goes_on i t t.place at refl (ground arith) (ground arith)

  -- Who waits for the mutex gets it, or its holder goes on.
  locker_moves : main_holds s.main ≡ 0 → (0 < s.mutex → CanMove s) → CanMove s
  locker_moves h f = elim (dec_lt 0 s.mutex) [ yes q ↦ f q | no q ↦ holder_moves (omega arith) h ]

  -- A thread that main() waits for while none has terminated.
  alive_moves :
      (i : ℕ) (t : Thread) (p : Place)
      → At i t
      → t.place ≡ p
      → is_unjoined t ≡ true
      → is_terminated t ≡ false
      → main_holds s.main ≡ 0
      → CanMove s
  alive_moves i t working at e u f h = locker_moves h (λ q. (_, thread_lock i t at e q, refl))
  alive_moves i t updating at e u f h = goes_on i t updating at e (λ q. cc) (λ q. cc)
  alive_moves i t unlocking at e u f h = goes_on i t unlocking at e (λ q. cc) (λ q. cc)
  alive_moves i t signalling at e u f h = goes_on i t signalling at e (λ q. cc) (λ q. cc)
  alive_moves i t returned at e u f h =
      absurd (ground (arith, weight-le-count is_odd s.threads i t at))

  asleep_moves : s.main ≡ asleep → CanMove s
  asleep_moves e = elim (dec_lt 0 s.num_unjoined) [
    | yes q ↦
        let (i, t, at, l) = count-find is_pending s.threads (ground arith) in
        goes_on i t t.place at refl (ground arith) (ground arith)
    | no q ↦
        let (i, t, at, l) = count-find is_unjoined s.threads (ground arith) in
        alive_moves i t t.place at refl l
          (ground (arith, weight-le-count is_terminated s.threads i t at)) (ground arith)
  ]

  -- main() joins a terminated thread at once, or when it has signalled.
  terminated_moves :
      (i : ℕ) (t : Thread) (p : Place)
      → At i t
      → t.place ≡ p
      → t.state ≡ ts_terminated
      → s.main ≡ scanning i
      → i < s.tot_threads
      → CanMove s
  terminated_moves i t working at e h m l =
      absurd (ground (arith, weight-le-count is_odd s.threads i t at))
  terminated_moves i t updating at e h m l = goes_on i t updating at e (λ q. cc) (λ q. cc)
  terminated_moves i t unlocking at e h m l = goes_on i t unlocking at e (λ q. cc) (λ q. cc)
  terminated_moves i t signalling at e h m l = goes_on i t signalling at e (λ q. cc) (λ q. cc)
  terminated_moves i t returned at e h m l = (_, join i t m l at h e, refl)

  thread_scanned :
      (i : ℕ) (t : Thread) (q : Tstate)
      → At i t
      → t.state ≡ q
      → s.main ≡ scanning i
      → i < s.tot_threads
      → CanMove s
  thread_scanned i t ts_alive at h m l = (_, pass_over i t m l at (λ p. cc), refl)
  thread_scanned i t ts_terminated at h m l = terminated_moves i t t.place at refl h m l
  thread_scanned i t ts_joined at h m l = (_, pass_over i t m l at (λ p. cc), refl)

  scan_moves : (i : ℕ) → s.main ≡ scanning i → CanMove s
  scan_moves i m = elim (dec_lt i s.tot_threads) [
    | yes q ↦
        let (t, at) = get_elem?_exists s.threads i (ground arith) in
        thread_scanned i t t.state at refl m q
    | no q ↦ (_, scanned i m (ground arith), refl)
  ]

  main_moves : (p : MainPlace) → s.main ≡ p → p ≢ exited → CanMove s
  main_moves (creating zero) e x = (_, created e, refl)
  main_moves (creating (suc left)) e x = (_, create left e, refl)
  main_moves testing e x = elim (dec_lt 0 s.num_live) [
    | yes q ↦ (_, test_more e q, refl)
    | no q ↦ (_, test_end e (omega arith), refl)
  ]
  main_moves locking e x = locker_moves (ground arith) (λ q. (_, lock e q, refl))
  main_moves checking e x = elim (dec_lt 0 s.num_unjoined) [
    | yes q ↦ (_, check_more e q, refl)
    | no q ↦ (_, check_wait e (omega arith), refl)
  ]
  main_moves asleep e x = asleep_moves e
  main_moves waking e x = locker_moves (ground arith) (λ q. (_, relock e q, refl))
  main_moves (scanning i) e x = scan_moves i e
  main_moves releasing e x = (_, release e, refl)
  main_moves exited e x = absurd (x refl)

-- No deadlock, and no signal lost: unless main() has exited, a step can be taken that is not a
-- spurious wake-up.
pub unended-CanMove : {n : ℕ} {s : Group} → Reach n s → s.main ≢ exited → CanMove s
unended-CanMove {s = s} r x = main_moves (Reach-IsSound r) s.main refl x
