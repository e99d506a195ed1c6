-- ===== src/Threads/Bounded.antt =====
-- thread_multijoin.c makes a bounded number of steps, but for spurious wake-ups.
use computer_science_notes.Base.{
  ℕ, ◌+◌, ◌-◌, ◌*◌, ◌≤◌, ◌<◌, ◌≡◌, refl, ap, some, List, length, get_elem?, set, arith,
}
use computer_science_notes.Base.Counts.{
  weight, count, count_below, count_below-suc, count_below-length, count_below-zero,
  count_below-set-suc, count_below-set_same, weight-le-count, total, total-set, count_mono,
  total-snoc,
}
use computer_science_notes.Threads.Joining.{
  Place, working, updating, unlocking, signalling, returned, ts_terminated, ts_joined, Thread,
  new_thread, MainPlace, creating, testing, locking, checking, asleep, waking, scanning, releasing,
  exited, Group, launch, signalled, Move, create, created, test_more, test_end, lock, check_wait,
  check_more, wake_spuriously, relock, join, pass_over, scanned, release, thread_lock,
  thread_update, thread_unlock, thread_signal, Reach, begin, later,
}
use computer_science_notes.Threads.Joined.{
  holds_lock, is_terminated, is_unjoined, main_holds, IsSound, Reach-IsSound,
}
use computer_science_notes.Threads.Ended.{is_spurious}

-- The terminated threads that the loop over the threads has passed.
abbrev missed : MainPlace → List Thread → ℕ
missed (scanning i) l = count_below is_terminated l i
missed _ l = 0

abbrev left_behind : MainPlace → ℕ → ℕ
left_behind releasing k = k
left_behind _ k = 0

record IsSwept (s : Group) : Type 0 where
  none_missed : missed s.main s.threads ≡ 0
  all_taken : left_behind s.main s.num_unjoined ≡ 0

missed-set :
    (m : MainPlace) (l : List Thread) (j : ℕ) (a b : Thread)
    → get_elem? l j ≡ some a
    → is_terminated a ≡ is_terminated b
    → missed m (set l j b) ≡ missed m l
missed-set (scanning i) l j a b at e = count_below-set_same is_terminated l i j a b at e
missed-set _ l j a b at e = refl

missed_free : (m : MainPlace) (l : List Thread) → main_holds m ≡ 0 → missed m l ≡ 0
missed_free (scanning i) l h = absurd (omega arith)
missed_free _ l h = refl

left_behind_free : (m : MainPlace) (k : ℕ) → main_holds m ≡ 0 → left_behind m k ≡ 0
left_behind_free releasing k h = absurd (omega arith)
left_behind_free _ k h = refl

missed-signalled : (m : MainPlace) (l : List Thread) → missed (signalled m) l ≡ missed m l
missed-signalled asleep l = refl
missed-signalled _ l = refl

left_behind-signalled : (m : MainPlace) (k : ℕ) → left_behind (signalled m) k ≡ left_behind m k
left_behind-signalled asleep k = refl
left_behind-signalled _ k = refl

module _ {n : ℕ} where
  Move-IsSwept : {s t : Group} → Move s t → IsSound n s → IsSwept s → IsSwept t
  Move-IsSwept (create left p) c w = ground arith
  Move-IsSwept (created p) c w = ground arith
  Move-IsSwept (test_more p h) c w = ground arith
  Move-IsSwept (test_end p h) c w = ground arith
  Move-IsSwept (lock p h) c w = ground arith
  Move-IsSwept (check_wait p h) c w = ground arith
  Move-IsSwept {s = s} (check_more p h) c w =
      ground (arith, count_below-zero is_terminated s.threads)
  Move-IsSwept (wake_spuriously p) c w = ground arith
  Move-IsSwept (relock p h) c w = ground arith
  Move-IsSwept {s = s} (join i t p l at h q) c w =
      ground
        (arith, count_below-set-suc is_terminated s.threads i t (record t { state = ts_joined }) at)
  Move-IsSwept {s = s} (pass_over i t p l at h) c w =
      ground (arith, count_below-suc is_terminated s.threads i t at)
  Move-IsSwept {s = s} (scanned i p h) c w =
      ground (arith, count_below-length is_terminated s.threads)
  Move-IsSwept (release p) c w = ground arith
  Move-IsSwept {s = s} (thread_lock i t at q h) c w =
      ground (arith, missed-set s.main s.threads i t (record t { place = updating }) at refl)
  Move-IsSwept {s = s} (thread_update i t at q) c w =
      let b : Thread = record { place = unlocking; state = ts_terminated } in
      let l : weight (holds_lock t) ≤ count holds_lock s.threads =
        weight-le-count holds_lock s.threads i t at in
      ground (
        arith,
        missed_free s.main (set s.threads i b),
        left_behind_free s.main (s.num_unjoined + 1),
      )
  Move-IsSwept {s = s} (thread_unlock i t at q) c w =
      ground (arith, missed-set s.main s.threads i t (record t { place = signalling }) at refl)
  Move-IsSwept {s = s} (thread_signal i t at q) c w = ground (
    arith,
    missed-set s.main s.threads i t (record t { place = returned }) at refl,
    missed-signalled s.main (set s.threads i (record t { place = returned })),
    left_behind-signalled s.main s.num_unjoined,
  )

  Reach-IsSwept : {s : Group} → Reach n s → IsSwept s
  Reach-IsSwept begin = omega arith
  Reach-IsSwept (later r m) = Move-IsSwept m (Reach-IsSound r) (Reach-IsSwept r)

terminated-unjoined : (t : Thread) → weight (is_terminated t) ≤ weight (is_unjoined t)
terminated-unjoined t = ground arith

-- The steps that a thread has still to make; a signal is worth the three that main() makes for it.
abbrev place_steps : Place → ℕ
place_steps working = 6
place_steps updating = 5
place_steps unlocking = 4
place_steps signalling = 3
place_steps returned = 0

abbrev thread_steps : Thread → ℕ
thread_steps t = place_steps t.place

-- And main(), where it makes n + 10 steps at most between two tests of numLive.
abbrev main_steps : ℕ → MainPlace → ℕ → ℕ → ℕ
main_steps n (creating left) live unjoined = (n + 10) * n + 6 + 7 * left
main_steps n testing live unjoined = (n + 10) * live + 5
main_steps n locking live unjoined = (n + 10) * live + 4
main_steps n checking live unjoined = (n + 10) * live + 3
main_steps n asleep live unjoined = (n + 10) * live + 2
main_steps n waking live unjoined = (n + 10) * live + 4
main_steps n (scanning i) live unjoined = (n + 10) * (live - unjoined) + (n - i) + 8
main_steps n releasing live unjoined = (n + 10) * live + 7
main_steps n exited live unjoined = 0

main_steps_free :
    (n : ℕ) (m : MainPlace) (live u v : ℕ)
    → main_holds m ≡ 0
    → main_steps n m live v ≡ main_steps n m live u
main_steps_free n (scanning i) live u v h = absurd (omega arith)
main_steps_free n _ live u v h = refl

main_steps-signalled :
    (n : ℕ) (m : MainPlace) (live u : ℕ)
    → main_steps n (signalled m) live u ≤ main_steps n m live u + 2
main_steps-signalled n asleep live u = omega arith
main_steps-signalled n _ live u = omega arith

abbrev steps_left : ℕ → Group → ℕ
steps_left n s = main_steps n s.main s.num_live s.num_unjoined + total thread_steps s.threads

round_pays :
    (k live unjoined : ℕ) → 0 < unjoined → unjoined ≤ live → k * (live - unjoined) + k ≤ k * live
round_pays k live unjoined h l = grind arith

join_keeps :
    (k live unjoined : ℕ) → 0 < unjoined → k * (live - 1 - (unjoined - 1)) ≡ k * (live - unjoined)
join_keeps k live unjoined h = ap (λ d. k * d) (omega arith)

module _ {n : ℕ} where
  Move-decreases :
      {s t : Group} (m : Move s t)
      → IsSound n s
      → IsSwept s
      → steps_left n t + 1 ≤ steps_left n s + 3 * weight (is_spurious m)
  Move-decreases {s = s} (create left p) c w =
      ground (arith, total-snoc thread_steps s.threads new_thread)
  Move-decreases {s = s} (created p) c w =
      let same : length s.threads ≡ n = ground arith in
      let bound : (n + 10) * length s.threads ≡ (n + 10) * n = ap (λ k. (n + 10) * k) same in
      ground arith
  Move-decreases (test_more p h) c w = ground arith
  Move-decreases (test_end p h) c w = ground arith
  Move-decreases (lock p h) c w = ground arith
  Move-decreases (check_wait p h) c w = ground arith
  Move-decreases {s = s} (check_more p h) c w = ground (
    arith,
    round_pays (n + 10) s.num_live s.num_unjoined,
    count_mono is_terminated is_unjoined s.threads terminated-unjoined,
  )
  Move-decreases (wake_spuriously p) c w = ground arith
  Move-decreases (relock p h) c w = ground arith
  Move-decreases {s = s} (join i t p l at h q) c w = ground (
    arith,
    total-set thread_steps s.threads i t (record t { state = ts_joined }) at,
    join_keeps (n + 10) s.num_live s.num_unjoined,
    weight-le-count is_terminated s.threads i t at,
  )
  Move-decreases {s = s} (pass_over i t p l at h) c w = ground arith
  Move-decreases {s = s} (scanned i p h) c w =
      ground (arith, count_below-length is_terminated s.threads)
  Move-decreases (release p) c w = ground arith
  Move-decreases {s = s} (thread_lock i t at q h) c w =
      ground (arith, total-set thread_steps s.threads i t (record t { place = updating }) at)
  Move-decreases {s = s} (thread_update i t at q) c w = ground (
    arith,
    main_steps_free n s.main s.num_live s.num_unjoined (s.num_unjoined + 1),
    total-set thread_steps s.threads i t (record { place = unlocking; state = ts_terminated }) at,
    weight-le-count holds_lock s.threads i t at,
  )
  Move-decreases {s = s} (thread_unlock i t at q) c w =
      ground (arith, total-set thread_steps s.threads i t (record t { place = signalling }) at)
  Move-decreases {s = s} (thread_signal i t at q) c w = ground (
    arith,
    main_steps-signalled n s.main s.num_live s.num_unjoined,
    total-set thread_steps s.threads i t (record t { place = returned }) at,
  )

-- The steps of a run, and those of them that are spurious wake-ups.
abbrev pub moves : {n : ℕ} {s : Group} → Reach n s → ℕ
moves begin = 0
moves (later r m) = moves r + 1

abbrev pub spurious_moves : {n : ℕ} {s : Group} → Reach n s → ℕ
spurious_moves begin = 0
spurious_moves (later r m) = spurious_moves r + weight (is_spurious m)

moves_paid :
    {n : ℕ} {s : Group} (r : Reach n s)
    → moves r + steps_left n s ≤ steps_left n (launch n) + 3 * spurious_moves r
moves_paid begin = omega arith
moves_paid (later r m) =
    omega (arith, moves_paid r, Move-decreases m (Reach-IsSound r) (Reach-IsSwept r))

-- A run of main() with n arguments has at most n * n + 17 * n + 6 steps and three for each spurious
-- wake-up.
pub moves-le :
    {n : ℕ} {s : Group} (r : Reach n s) → moves r ≤ n * n + 17 * n + 6 + 3 * spurious_moves r
moves-le {n} r = grind (arith, moves_paid r)
