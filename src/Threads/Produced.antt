-- ===== src/Threads/Produced.antt =====
-- What holds in every state of prod_condvar.c: no unit is lost or made twice.
use computer_science_notes.Base.{
  ℕ, ◌+◌, ◌-◌, ◌≤◌, ◌≡◌, Bool, true, false, ◌&&◌, some, List, [], ◌∷◌, ◌++◌, get_elem?, set, leb,
  ltb, arith,
}
use computer_science_notes.Base.Counts.{
  weight, count, count-set, count-snoc, weight-le-count, total, total-set, total-snoc,
}
use computer_science_notes.Threads.Producing.{
  ProducerPlace, making, adding, opening, telling, ended, Producer, ConsumerPlace, hiring, entering,
  looking, sleeping, rising, consuming, leaving, closed, Market, opened, new_producer, Turn, hire,
  hired, enter, look_wait, look_more, rise_spuriously, reenter, consume, consumed_all, leave, close,
  go_on, make, end, add, open_up, tell, Reach, begin, later,
}

abbrev pub sum : List ℕ → ℕ
sum [] = 0
sum (c ∷ counts) = c + sum counts

abbrev place_locks : ProducerPlace → Bool
place_locks adding = true
place_locks opening = true
place_locks _ = false

-- The producer has the mutex.
abbrev pub holds_lock : Producer → Bool
holds_lock p = place_locks p.place

abbrev place_tells : ProducerPlace → Bool
place_tells opening = true
place_tells telling = true
place_tells _ = false

-- The producer has still to signal what it has added.
abbrev pub is_pending : Producer → Bool
is_pending p = place_tells p.place

abbrev place_odd : ProducerPlace → ℕ → Bool
place_odd making left = false
place_odd ended left = ltb 0 left
place_odd _ left = ltb left 1

-- The producer's count is not one that it can have at its place.
abbrev pub is_odd : Producer → Bool
is_odd p = place_odd p.place p.left

abbrev place_unmade : ProducerPlace → ℕ → ℕ
place_unmade making left = left
place_unmade adding left = left
place_unmade opening left = left - 1
place_unmade telling left = left - 1
place_unmade ended left = 0

-- The units that the producer has still to add to `avail`.
abbrev pub unmade : Producer → ℕ
unmade p = place_unmade p.place p.left

abbrev pub main_holds : ConsumerPlace → ℕ
main_holds looking = 1
main_holds consuming = 1
main_holds leaving = 1
main_holds _ = 0

-- What the arguments that are left ask for.
abbrev unhired : ConsumerPlace → ℕ
unhired (hiring counts) = sum counts
unhired _ = 0

abbrev pub unset : ConsumerPlace → ℕ → ℕ
unset (hiring counts) k = k
unset _ k = 0

-- What main() needs a signal for.
abbrev pub awaited : ConsumerPlace → ℕ → ℕ
awaited sleeping k = k
awaited _ k = 0

-- main() has not found `done` set since it was last computed.
abbrev undone : ConsumerPlace → Bool → Bool
undone entering b = b
undone looking b = b
undone sleeping b = b
undone rising b = b
undone _ b = false

abbrev closed_early : ConsumerPlace → Bool → Bool
closed_early closed true = false
closed_early closed false = true
closed_early _ b = false

pub record IsSound (counts : List ℕ) (s : Market) : Type 0 where
  pub exclusive : s.mutex + count holds_lock s.producers + main_holds s.main ≡ 1
  pub fitting : count is_odd s.producers ≡ 0
  pub accounts : s.num_consumed + s.avail + total unmade s.producers ≡ s.tot_required
  pub planned : s.tot_required + unhired s.main ≡ sum counts
  pub unbegun : unset s.main s.num_consumed ≡ 0
  pub signals : awaited s.main s.avail ≤ count is_pending s.producers
  pub finished : s.done ≡ (ltb 0 s.num_consumed && leb s.tot_required s.num_consumed)
  pub waiting : undone s.main s.done ≡ false
  pub closing : closed_early s.main s.done ≡ false

-- What becomes of the counts where producer `a` of `l` changes to `b`.
record Exchange (l : List Producer) (i : ℕ) (a b : Producer) : Type 0 where
  locks :
      count holds_lock (set l i b) + weight (holds_lock a)
      ≡ count holds_lock l + weight (holds_lock b)
  pending :
      count is_pending (set l i b) + weight (is_pending a)
      ≡ count is_pending l + weight (is_pending b)
  odd : count is_odd (set l i b) + weight (is_odd a) ≡ count is_odd l + weight (is_odd b)
  made : total unmade (set l i b) + unmade a ≡ total unmade l + unmade b
  was_odd : weight (is_odd a) ≤ count is_odd l
  was_locked : weight (holds_lock a) ≤ count holds_lock l

exchange : (l : List Producer) (i : ℕ) (a b : Producer) → get_elem? l i ≡ some a → Exchange l i a b
exchange l i a b at = record {
  locks = count-set holds_lock l i a b at;
  pending = count-set is_pending l i a b at;
  odd = count-set is_odd l i a b at;
  made = total-set unmade l i a b at;
  was_odd = weight-le-count is_odd l i a at;
  was_locked = weight-le-count holds_lock l i a at;
}

-- And where a new producer is added.
record Added (l : List Producer) (cnt : ℕ) : Type 0 where
  locks : count holds_lock (l ++ new_producer cnt ∷ []) ≡ count holds_lock l
  pending : count is_pending (l ++ new_producer cnt ∷ []) ≡ count is_pending l
  odd : count is_odd (l ++ new_producer cnt ∷ []) ≡ count is_odd l
  made : total unmade (l ++ new_producer cnt ∷ []) ≡ total unmade l + cnt

added : (l : List Producer) (cnt : ℕ) → Added l cnt
added l cnt = record {
  locks = omega (arith, count-snoc holds_lock l (new_producer cnt));
  pending = omega (arith, count-snoc is_pending l (new_producer cnt));
  odd = omega (arith, count-snoc is_odd l (new_producer cnt));
  made = total-snoc unmade l (new_producer cnt);
}

opened-IsSound : (counts : List ℕ) → IsSound counts (opened counts)
opened-IsSound counts = ground arith

module _ {counts : List ℕ} where
  Turn-IsSound : {s t : Market} → Turn s t → IsSound counts s → IsSound counts t
  Turn-IsSound {s = s} (hire cnt rest p) c = ground (arith, added s.producers cnt)
  Turn-IsSound (hired p) c = ground arith
  Turn-IsSound (enter p h) c = ground arith
  Turn-IsSound (look_wait p h) c = ground arith
  Turn-IsSound (look_more p h) c = ground arith
  Turn-IsSound (rise_spuriously p) c = ground arith
  Turn-IsSound (reenter p h) c = ground arith
  Turn-IsSound (consume p h) c = ground arith
  Turn-IsSound (consumed_all p h) c = ground arith
  Turn-IsSound (leave p) c = ground arith
  Turn-IsSound (close p h) c = ground arith
  Turn-IsSound (go_on p h) c = ground arith
  Turn-IsSound {s = s} (make i p x at e l h) c =
      ground (arith, exchange s.producers i p (record p { place = adding }) at)
  Turn-IsSound {s = s} (end i p x at e l) c =
      ground (arith, exchange s.producers i p (record p { place = ended }) at)
  Turn-IsSound {s = s} (add i p x at e) c =
      ground (arith, exchange s.producers i p (record p { place = opening }) at)
  Turn-IsSound {s = s} (open_up i p x at e) c =
      ground (arith, exchange s.producers i p (record p { place = telling }) at)
  Turn-IsSound {s = s} (tell i p x at e) c =
      ground (arith, exchange s.producers i p (record { place = making; left = p.left - 1 }) at)

  -- In every state that main() can reach, no unit is lost or made twice.
  pub Reach-IsSound : {s : Market} → Reach counts s → IsSound counts s
  Reach-IsSound begin = opened-IsSound counts
  Reach-IsSound (later r m) = Turn-IsSound m (Reach-IsSound r)
