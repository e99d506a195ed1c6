-- ===== src/Threads/Producing.antt =====
-- prod_condvar.c as a step relation: a step is one call, one test or one critical assignment of a
-- thread, and any thread may take the next one. The arguments are the numbers that atoi() finds in
-- the program's, none of them negative.
use computer_science_notes.Base.{
  ℕ, ◌+◌, ◌-◌, ◌<◌, ◌≡◌, ◌≢◌, some, List, [], ◌∷◌, ◌++◌, get_elem?, set, leb, Bool, true, false,
}

-- Where a thread stands in producer().
pub data ProducerPlace : Type 0 where
  making : ProducerPlace  -- `j < cnt`, and up to pthread_mutex_lock()
  adding : ProducerPlace  -- `avail++;`
  opening : ProducerPlace  -- pthread_mutex_unlock()
  telling : ProducerPlace  -- pthread_cond_signal()
  ended : ProducerPlace

-- `left` is cnt - j.
pub record Producer : Type 0 where
  pub place : ProducerPlace
  pub left : ℕ

-- Where main() stands.
pub data ConsumerPlace : Type 0 where
  hiring : List ℕ → ConsumerPlace  -- with these arguments left
  entering : ConsumerPlace  -- pthread_mutex_lock()
  looking : ConsumerPlace  -- `while (avail == 0)`
  sleeping : ConsumerPlace  -- in pthread_cond_wait()
  rising : ConsumerPlace  -- there, until it has the mutex again
  consuming : ConsumerPlace  -- `while (avail > 0)`
  leaving : ConsumerPlace  -- pthread_mutex_unlock()
  deciding : ConsumerPlace  -- `if (done)`
  closed : ConsumerPlace

-- `mutex` is 1 while the mutex is free. The counts are ints in the program: they are these numbers as
-- long as they stay below 2^31.
pub record Market : Type 0 where
  pub mutex : ℕ
  pub avail : ℕ
  pub producers : List Producer
  pub tot_required : ℕ
  pub num_consumed : ℕ
  pub done : Bool
  pub main : ConsumerPlace

abbrev pub opened : List ℕ → Market
opened counts = record {
  mutex = 1;
  avail = 0;
  producers = [];
  tot_required = 0;
  num_consumed = 0;
  done = false;
  main = hiring counts;
}

abbrev pub new_producer : ℕ → Producer
new_producer cnt = record { place = making; left = cnt }

-- What pthread_cond_signal() does to main().
abbrev pub told : ConsumerPlace → ConsumerPlace
told sleeping = rising
told m = m

-- One step; no call fails. When main() has called exit() no thread goes on.
pub data Turn (s : Market) : Market → Type 0 where
  hire :
      (cnt : ℕ) (rest : List ℕ)
      → s.main ≡ hiring (cnt ∷ rest)
      → Turn s (record s {
        main = hiring rest;
        tot_required = s.tot_required + cnt;
        producers = s.producers ++ new_producer cnt ∷ [];
      })
  hired : s.main ≡ hiring [] → Turn s (record s { main = entering; num_consumed = 0; done = false })
  enter :
      s.main ≡ entering → 0 < s.mutex → Turn s (record s { main = looking; mutex = s.mutex - 1 })
  look_wait :
      s.main ≡ looking → s.avail ≡ 0 → Turn s (record s { main = sleeping; mutex = s.mutex + 1 })
  look_more : s.main ≡ looking → 0 < s.avail → Turn s (record s { main = consuming })
  rise_spuriously : s.main ≡ sleeping → Turn s (record s { main = rising })
  reenter :
      s.main ≡ rising → 0 < s.mutex → Turn s (record s { main = looking; mutex = s.mutex - 1 })
  consume :
      s.main ≡ consuming
      → 0 < s.avail
      → Turn s (record s {
        num_consumed = s.num_consumed + 1;
        avail = s.avail - 1;
        done = leb s.tot_required (s.num_consumed + 1);
      })
  consumed_all : s.main ≡ consuming → s.avail ≡ 0 → Turn s (record s { main = leaving })
  leave : s.main ≡ leaving → Turn s (record s { main = deciding; mutex = s.mutex + 1 })
  close : s.main ≡ deciding → s.done ≡ true → Turn s (record s { main = closed })
  go_on : s.main ≡ deciding → s.done ≡ false → Turn s (record s { main = entering })
  make :
      (i : ℕ) (p : Producer)
      → s.main ≢ closed
      → get_elem? s.producers i ≡ some p
      → p.place ≡ making
      → 0 < p.left
      → 0 < s.mutex
      → Turn s (record s {
        producers = set s.producers i (record p { place = adding });
        mutex = s.mutex - 1;
      })
  end :
      (i : ℕ) (p : Producer)
      → s.main ≢ closed
      → get_elem? s.producers i ≡ some p
      → p.place ≡ making
      → p.left ≡ 0
      → Turn s (record s { producers = set s.producers i (record p { place = ended }) })
  add :
      (i : ℕ) (p : Producer)
      → s.main ≢ closed
      → get_elem? s.producers i ≡ some p
      → p.place ≡ adding
      → Turn s (record s {
        producers = set s.producers i (record p { place = opening });
        avail = s.avail + 1;
      })
  open_up :
      (i : ℕ) (p : Producer)
      → s.main ≢ closed
      → get_elem? s.producers i ≡ some p
      → p.place ≡ opening
      → Turn s (record s {
        producers = set s.producers i (record p { place = telling });
        mutex = s.mutex + 1;
      })
  tell :
      (i : ℕ) (p : Producer)
      → s.main ≢ closed
      → get_elem? s.producers i ≡ some p
      → p.place ≡ telling
      → Turn s (record s {
        producers = set s.producers i (record { place = making; left = p.left - 1 });
        main = told s.main;
      })

-- The states that main() can be in with these arguments.
pub data Reach (counts : List ℕ) : Market → Type 0 where
  begin : Reach counts (opened counts)
  later : {s t : Market} → Reach counts s → Turn s t → Reach counts t
