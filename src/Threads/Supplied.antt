-- ===== src/Threads/Supplied.antt =====
-- prod_condvar.c makes a bounded number of steps, but for spurious wake-ups.
use computer_science_notes.Base.{ℕ, ◌+◌, ◌-◌, ◌*◌, ◌≤◌, ◌≡◌, refl, List, length, arith}
use computer_science_notes.Base.Counts.{weight, weight-le-count, total, total-set, total-snoc}
use computer_science_notes.Threads.Producing.{
  ProducerPlace, making, adding, opening, telling, ended, Producer, ConsumerPlace, hiring, entering,
  looking, sleeping, rising, consuming, leaving, deciding, closed, Market, opened, new_producer,
  told, Turn, hire, hired, enter, look_wait, look_more, rise_spuriously, reenter, consume,
  consumed_all, leave, close, go_on, make, end, add, open_up, tell, Reach, begin, later,
}
use computer_science_notes.Threads.Produced.{
  sum, holds_lock, is_odd, main_holds, IsSound, Reach-IsSound,
}
use computer_science_notes.Threads.Consumed.{is_spurious}

-- The steps that a producer has still to make; a signal is worth the three that main() makes for it.
abbrev place_steps : ProducerPlace → ℕ → ℕ
place_steps making left = 6 * left + 1
place_steps adding left = 6 * left
place_steps opening left = 6 * left - 1
place_steps telling left = 6 * left - 2
place_steps ended left = 0

abbrev producer_steps : Producer → ℕ
producer_steps p = place_steps p.place p.left

-- And main(), where it makes eight steps at most for a unit.
abbrev main_steps : ConsumerPlace → ℕ → ℕ → ℕ
main_steps (hiring rest) wanted avail = 8 * (wanted + sum rest) + 6 + 6 * sum rest + 2 * length rest
main_steps entering wanted avail = 8 * wanted + 5
main_steps looking wanted avail = 8 * wanted + 4
main_steps sleeping wanted avail = 8 * wanted + 3
main_steps rising wanted avail = 8 * wanted + 5
main_steps consuming wanted avail = 8 * (wanted - avail) + avail + 8
main_steps leaving wanted avail = 8 * wanted + 7
main_steps deciding wanted avail = 8 * wanted + 6
main_steps closed wanted avail = 0

abbrev steps_left : Market → ℕ
steps_left s =
    main_steps s.main (s.tot_required - s.num_consumed) s.avail + total producer_steps s.producers

main_steps_free :
    (m : ConsumerPlace) (wanted a b : ℕ)
    → main_holds m ≡ 0
    → main_steps m wanted b ≡ main_steps m wanted a
main_steps_free consuming wanted a b h = absurd (omega arith)
main_steps_free _ wanted a b h = refl

main_steps-told :
    (m : ConsumerPlace) (wanted a : ℕ) → main_steps (told m) wanted a ≤ main_steps m wanted a + 2
main_steps-told sleeping wanted a = omega arith
main_steps-told _ wanted a = omega arith

module _ {counts : List ℕ} where
  Turn-decreases :
      {s t : Market} (m : Turn s t)
      → IsSound counts s
      → steps_left t + 1 ≤ steps_left s + 3 * weight (is_spurious m)
  Turn-decreases {s = s} (hire cnt rest p) c =
      ground (arith, total-snoc producer_steps s.producers (new_producer cnt))
  Turn-decreases (hired p) c = ground arith
  Turn-decreases (enter p h) c = ground arith
  Turn-decreases (look_wait p h) c = ground arith
  Turn-decreases (look_more p h) c = ground arith
  Turn-decreases (rise_spuriously p) c = ground arith
  Turn-decreases (reenter p h) c = ground arith
  Turn-decreases (consume p h) c = ground arith
  Turn-decreases (consumed_all p h) c = ground arith
  Turn-decreases (leave p) c = ground arith
  Turn-decreases (close p h) c = ground arith
  Turn-decreases (go_on p h) c = ground arith
  Turn-decreases {s = s} (make i p x at e l h) c =
      ground (arith, total-set producer_steps s.producers i p (record p { place = adding }) at)
  Turn-decreases {s = s} (end i p x at e l) c =
      ground (arith, total-set producer_steps s.producers i p (record p { place = ended }) at)
  Turn-decreases {s = s} (add i p x at e) c = ground (
    arith,
    total-set producer_steps s.producers i p (record p { place = opening }) at,
    main_steps_free s.main (s.tot_required - s.num_consumed) s.avail (s.avail + 1),
    weight-le-count holds_lock s.producers i p at,
    weight-le-count is_odd s.producers i p at,
  )
  Turn-decreases {s = s} (open_up i p x at e) c = ground (
    arith,
    total-set producer_steps s.producers i p (record p { place = telling }) at,
    weight-le-count is_odd s.producers i p at,
  )
  Turn-decreases {s = s} (tell i p x at e) c = ground (
    arith,
    total-set producer_steps s.producers i p (record { place = making; left = p.left - 1 }) at,
    main_steps-told s.main (s.tot_required - s.num_consumed) s.avail,
    weight-le-count is_odd s.producers i p at,
  )

-- The steps of a run, and those of them that are spurious wake-ups.
abbrev pub turns : {counts : List ℕ} {s : Market} → Reach counts s → ℕ
turns begin = 0
turns (later r m) = turns r + 1

abbrev pub spurious_turns : {counts : List ℕ} {s : Market} → Reach counts s → ℕ
spurious_turns begin = 0
spurious_turns (later r m) = spurious_turns r + weight (is_spurious m)

turns_paid :
    {counts : List ℕ} {s : Market} (r : Reach counts s)
    → turns r + steps_left s ≤ steps_left (opened counts) + 3 * spurious_turns r
turns_paid begin = omega arith
turns_paid (later r m) = omega (arith, turns_paid r, Turn-decreases m (Reach-IsSound r))

-- A run of main() has at most fourteen steps for each unit that is asked for, two for each argument,
-- six and three for each spurious wake-up.
pub turns-le :
    {counts : List ℕ} {s : Market} (r : Reach counts s)
    → turns r ≤ 14 * sum counts + 2 * length counts + 6 + 3 * spurious_turns r
turns-le r = omega (arith, turns_paid r)
