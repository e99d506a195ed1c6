-- ===== src/Threads/Joined.antt =====
-- What holds in every state of thread_multijoin.c: the counters agree with the threads.
use computer_science_notes.Base.{
  ℕ, ◌+◌, ◌≤◌, ◌≡◌, Bool, true, false, some, List, [], ◌∷◌, ◌++◌, length, get_elem?, set,
  length-set, length-append, arith,
}
use computer_science_notes.Base.Counts.{weight, count, count-set, count-snoc, weight-le-count}
use computer_science_notes.Threads.Joining.{
  Place, working, updating, unlocking, signalling, returned, Tstate, ts_alive, ts_terminated,
  ts_joined, Thread, new_thread, MainPlace, creating, locking, checking, asleep, waking, scanning,
  releasing, exited, Group, launch, Move, create, created, test_more, test_end, lock, check_wait,
  check_more, wake_spuriously, relock, join, pass_over, scanned, release, thread_lock,
  thread_update, thread_unlock, thread_signal, Reach, begin, later,
}

abbrev place_locks : Place → Bool
place_locks updating = true
place_locks unlocking = true
place_locks _ = false

-- The thread has the mutex.
abbrev pub holds_lock : Thread → Bool
holds_lock t = place_locks t.place

abbrev place_signals : Place → Bool
place_signals unlocking = true
place_signals signalling = true
place_signals _ = false

-- The thread has still to signal what it has counted.
abbrev pub is_pending : Thread → Bool
is_pending t = place_signals t.place

abbrev state_terminated : Tstate → Bool
state_terminated ts_terminated = true
state_terminated _ = false

abbrev pub is_terminated : Thread → Bool
is_terminated t = state_terminated t.state

abbrev state_unjoined : Tstate → Bool
state_unjoined ts_joined = false
state_unjoined _ = true

abbrev pub is_unjoined : Thread → Bool
is_unjoined t = state_unjoined t.state

abbrev fits : Place → Tstate → Bool
fits working ts_alive = true
fits updating ts_alive = true
fits unlocking ts_terminated = true
fits signalling ts_terminated = true
fits returned ts_terminated = true
fits returned ts_joined = true
fits _ _ = false

-- The thread's state is not one that it can have at its place.
abbrev pub is_odd : Thread → Bool
is_odd t = elim (fits t.place t.state) [ true ↦ false | false ↦ true ]

abbrev pub main_holds : MainPlace → ℕ
main_holds checking = 1
main_holds (scanning i) = 1
main_holds releasing = 1
main_holds _ = 0

abbrev to_create : MainPlace → ℕ
to_create (creating left) = left
to_create _ = 0

-- Of a number, the part that main() has not stored yet.
abbrev unstored : MainPlace → ℕ → ℕ
unstored (creating left) k = k
unstored _ k = 0

-- What main() needs a signal for.
abbrev pub awaited : MainPlace → ℕ → ℕ
awaited asleep k = k
awaited _ k = 0

-- main() has found that a thread is live, and has joined none since.
abbrev in_round : MainPlace → ℕ
in_round locking = 1
in_round checking = 1
in_round asleep = 1
in_round waking = 1
in_round _ = 0

abbrev forgotten : MainPlace → ℕ → ℕ
forgotten exited k = k
forgotten _ k = 0

abbrev scan_index : MainPlace → ℕ
scan_index (scanning i) = i
scan_index _ = 0

pub record IsSound (n : ℕ) (s : Group) : Type 0 where
  pub exclusive : s.mutex + count holds_lock s.threads + main_holds s.main ≡ 1
  pub unjoined : s.num_unjoined ≡ count is_terminated s.threads
  pub fitting : count is_odd s.threads ≡ 0
  pub creation : to_create s.main + length s.threads ≡ n
  pub total : unstored s.main (length s.threads) + s.tot_threads ≡ length s.threads
  pub live : unstored s.main (length s.threads) + s.num_live ≡ count is_unjoined s.threads
  pub unset : unstored s.main s.num_live ≡ 0
  pub signals : awaited s.main s.num_unjoined ≤ count is_pending s.threads
  pub round : in_round s.main ≤ s.num_live
  pub ending : forgotten s.main s.num_live ≡ 0
  pub scan : scan_index s.main ≤ s.tot_threads

-- What becomes of the counts where thread `a` of `l` changes to `b`.
record Exchange (l : List Thread) (i : ℕ) (a b : Thread) : Type 0 where
  locks :
      count holds_lock (set l i b) + weight (holds_lock a)
      ≡ count holds_lock l + weight (holds_lock b)
  pending :
      count is_pending (set l i b) + weight (is_pending a)
      ≡ count is_pending l + weight (is_pending b)
  terminated :
      count is_terminated (set l i b) + weight (is_terminated a)
      ≡ count is_terminated l + weight (is_terminated b)
  unjoined :
      count is_unjoined (set l i b) + weight (is_unjoined a)
      ≡ count is_unjoined l + weight (is_unjoined b)
  odd : count is_odd (set l i b) + weight (is_odd a) ≡ count is_odd l + weight (is_odd b)
  was_odd : weight (is_odd a) ≤ count is_odd l
  was_locked : weight (holds_lock a) ≤ count holds_lock l
  as_long : length (set l i b) ≡ length l

exchange : (l : List Thread) (i : ℕ) (a b : Thread) → get_elem? l i ≡ some a → Exchange l i a b
exchange l i a b at = record {
  locks = count-set holds_lock l i a b at;
  pending = count-set is_pending l i a b at;
  terminated = count-set is_terminated l i a b at;
  unjoined = count-set is_unjoined l i a b at;
  odd = count-set is_odd l i a b at;
  was_odd = weight-le-count is_odd l i a at;
  was_locked = weight-le-count holds_lock l i a at;
  as_long = length-set l i b;
}

-- And where a new thread is added.
record Added (l : List Thread) : Type 0 where
  locks : count holds_lock (l ++ new_thread ∷ []) ≡ count holds_lock l
  pending : count is_pending (l ++ new_thread ∷ []) ≡ count is_pending l
  terminated : count is_terminated (l ++ new_thread ∷ []) ≡ count is_terminated l
  unjoined : count is_unjoined (l ++ new_thread ∷ []) ≡ count is_unjoined l + 1
  odd : count is_odd (l ++ new_thread ∷ []) ≡ count is_odd l
  longer : length (l ++ new_thread ∷ []) ≡ length l + 1

added : (l : List Thread) → Added l
added l = record {
  locks = omega (arith, count-snoc holds_lock l new_thread);
  pending = omega (arith, count-snoc is_pending l new_thread);
  terminated = omega (arith, count-snoc is_terminated l new_thread);
  unjoined = omega (arith, count-snoc is_unjoined l new_thread);
  odd = omega (arith, count-snoc is_odd l new_thread);
  longer = omega (arith, length-append l (new_thread ∷ []));
}

launch-IsSound : (n : ℕ) → IsSound n (launch n)
launch-IsSound n = omega arith

module _ {n : ℕ} where
  Move-IsSound : {s t : Group} → Move s t → IsSound n s → IsSound n t
  Move-IsSound {s = s} (create left p) c = ground (arith, added s.threads)
  Move-IsSound (created p) c = ground arith
  Move-IsSound (test_more p h) c = ground arith
  Move-IsSound (test_end p h) c = ground arith
  Move-IsSound (lock p h) c = ground arith
  Move-IsSound (check_wait p h) c = ground arith
  Move-IsSound (check_more p h) c = ground arith
  Move-IsSound (wake_spuriously p) c = ground arith
  Move-IsSound (relock p h) c = ground arith
  Move-IsSound {s = s} (join i t p l at h q) c =
      ground (arith, exchange s.threads i t (record t { state = ts_joined }) at)
  Move-IsSound (pass_over i t p l at h) c = ground arith
  Move-IsSound (scanned i p h) c = ground arith
  Move-IsSound (release p) c = ground arith
  Move-IsSound {s = s} (thread_lock i t at q h) c =
      ground (arith, exchange s.threads i t (record t { place = updating }) at)
  Move-IsSound {s = s} (thread_update i t at q) c =
      ground
        (arith, exchange s.threads i t (record { place = unlocking; state = ts_terminated }) at)
  Move-IsSound {s = s} (thread_unlock i t at q) c =
      ground (arith, exchange s.threads i t (record t { place = signalling }) at)
  Move-IsSound {s = s} (thread_signal i t at q) c =
      ground (arith, exchange s.threads i t (record t { place = returned }) at)

  -- In every state that main() with n arguments can reach, the counters agree with the threads.
  pub Reach-IsSound : {s : Group} → Reach n s → IsSound n s
  Reach-IsSound begin = launch-IsSound n
  Reach-IsSound (later r m) = Move-IsSound m (Reach-IsSound r)
