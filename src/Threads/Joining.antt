-- ===== src/Threads/Joining.antt =====
-- thread_multijoin.c as a step relation: a step is one call, one test or one critical assignment of a
-- thread, and any thread may take the next one.
use computer_science_notes.Base.{
  ℕ, zero, suc, ◌+◌, ◌-◌, ◌<◌, ◌≡◌, ◌≢◌, some, List, [], ◌∷◌, ◌++◌, length, get_elem?, set,
}

-- Where a thread stands in threadFunc().
pub data Place : Type 0 where
  working : Place  -- up to pthread_mutex_lock()
  updating : Place  -- `numUnjoined++; thread[idx].state = TS_TERMINATED;`
  unlocking : Place  -- pthread_mutex_unlock()
  signalling : Place  -- pthread_cond_signal()
  returned : Place

-- enum tstate
pub data Tstate : Type 0 where
  ts_alive : Tstate
  ts_terminated : Tstate
  ts_joined : Tstate

pub record Thread : Type 0 where
  pub place : Place
  pub state : Tstate

abbrev pub new_thread : Thread
new_thread = record { place = working; state = ts_alive }

-- Where main() stands.
pub data MainPlace : Type 0 where
  creating : ℕ → MainPlace  -- with so many threads still to create
  testing : MainPlace  -- `while (numLive > 0)`
  locking : MainPlace  -- pthread_mutex_lock()
  checking : MainPlace  -- `while (numUnjoined == 0)`
  asleep : MainPlace  -- in pthread_cond_wait()
  waking : MainPlace  -- there, until it has the mutex again
  scanning : ℕ → MainPlace  -- the loop over the threads, at idx
  releasing : MainPlace  -- pthread_mutex_unlock()
  exited : MainPlace

-- `mutex` is 1 while the mutex is free. `tot_threads` is totThreads once main() has set it.
pub record Group : Type 0 where
  pub mutex : ℕ
  pub threads : List Thread
  pub tot_threads : ℕ
  pub num_live : ℕ
  pub num_unjoined : ℕ
  pub main : MainPlace

-- main() with `n` arguments.
abbrev pub launch : ℕ → Group
launch n = record {
  mutex = 1;
  threads = [];
  tot_threads = 0;
  num_live = 0;
  num_unjoined = 0;
  main = creating n;
}

-- What pthread_cond_signal() does to main().
abbrev pub signalled : MainPlace → MainPlace
signalled asleep = waking
signalled m = m

abbrev move_to : Group → ℕ → Thread → List Thread
move_to s i t = set s.threads i t

-- One step; no call fails. pthread_join() returns when its thread has.
pub data Move (s : Group) : Group → Type 0 where
  create :
      (left : ℕ)
      → s.main ≡ creating (suc left)
      → Move s (record s { main = creating left; threads = s.threads ++ new_thread ∷ [] })
  created :
      s.main ≡ creating zero
      → Move s
          (record s { main = testing; tot_threads = length s.threads; num_live = length s.threads })
  test_more : s.main ≡ testing → 0 < s.num_live → Move s (record s { main = locking })
  test_end : s.main ≡ testing → s.num_live ≡ 0 → Move s (record s { main = exited })
  lock : s.main ≡ locking → 0 < s.mutex → Move s (record s { main = checking; mutex = s.mutex - 1 })
  check_wait :
      s.main ≡ checking
      → s.num_unjoined ≡ 0
      → Move s (record s { main = asleep; mutex = s.mutex + 1 })
  check_more : s.main ≡ checking → 0 < s.num_unjoined → Move s (record s { main = scanning 0 })
  wake_spuriously : s.main ≡ asleep → Move s (record s { main = waking })
  relock :
      s.main ≡ waking → 0 < s.mutex → Move s (record s { main = checking; mutex = s.mutex - 1 })
  join :
      (i : ℕ) (t : Thread)
      → s.main ≡ scanning i
      → i < s.tot_threads
      → get_elem? s.threads i ≡ some t
      → t.state ≡ ts_terminated
      → t.place ≡ returned
      → Move s (record s {
        main = scanning (suc i);
        threads = move_to s i (record t { state = ts_joined });
        num_live = s.num_live - 1;
        num_unjoined = s.num_unjoined - 1;
      })
  pass_over :
      (i : ℕ) (t : Thread)
      → s.main ≡ scanning i
      → i < s.tot_threads
      → get_elem? s.threads i ≡ some t
      → t.state ≢ ts_terminated
      → Move s (record s { main = scanning (suc i) })
  scanned :
      (i : ℕ) → s.main ≡ scanning i → s.tot_threads ≡ i → Move s (record s { main = releasing })
  release : s.main ≡ releasing → Move s (record s { main = testing; mutex = s.mutex + 1 })
  thread_lock :
      (i : ℕ) (t : Thread)
      → get_elem? s.threads i ≡ some t
      → t.place ≡ working
      → 0 < s.mutex
      → Move s
          (record s { threads = move_to s i (record t { place = updating }); mutex = s.mutex - 1 })
  thread_update :
      (i : ℕ) (t : Thread)
      → get_elem? s.threads i ≡ some t
      → t.place ≡ updating
      → Move s (record s {
        threads = move_to s i (record { place = unlocking; state = ts_terminated });
        num_unjoined = s.num_unjoined + 1;
      })
  thread_unlock :
      (i : ℕ) (t : Thread)
      → get_elem? s.threads i ≡ some t
      → t.place ≡ unlocking
      → Move s (record s {
        threads = move_to s i (record t { place = signalling });
        mutex = s.mutex + 1;
      })
  thread_signal :
      (i : ℕ) (t : Thread)
      → get_elem? s.threads i ≡ some t
      → t.place ≡ signalling
      → Move s (record s {
        threads = move_to s i (record t { place = returned });
        main = signalled s.main;
      })

-- The states that main() with `n` arguments can be in.
pub data Reach (n : ℕ) : Group → Type 0 where
  begin : Reach n (launch n)
  later : {s t : Group} → Reach n s → Move s t → Reach n t
