-- ===== src/Threads/Tests.antt =====
-- Runs of the programs of Threads.
use computer_science_notes.Base.{
  ℕ, ◌+◌, ◌*◌, ◌≤◌, ◌≡◌, ◌≢◌, refl, true, false, [], ◌∷◌, length, List, arith,
}
use computer_science_notes.Threads.Joining
use computer_science_notes.Threads.Joining.{
  Group, ts_terminated, ts_joined, create, created, test_more, test_end, lock, check_wait,
  check_more, wake_spuriously, relock, join, scanned, release, thread_lock, thread_update,
  thread_unlock, thread_signal,
}
use computer_science_notes.Threads.Joined
use computer_science_notes.Threads.Joined.{Reach-IsSound}
use computer_science_notes.Threads.Ended.{exited-joined, CanMove, unended-CanMove}
use computer_science_notes.Threads.Bounded.{moves, spurious_moves, moves-le}
use computer_science_notes.Threads.Producing
use computer_science_notes.Threads.Producing.{
  Market, hire, hired, enter, look_wait, look_more, rise_spuriously, reenter, consume, consumed_all,
  leave, close, make, end, add, open_up, tell,
}
use computer_science_notes.Threads.Produced.{sum}
use computer_science_notes.Threads.Consumed.{
  closed_all_consumed, HasInts, AtExit, CanTurn, unclosed-CanTurn,
}
use computer_science_notes.Threads.Supplied.{turns, spurious_turns, turns-le}

abbrev gone : Joining.Thread
gone = record { place = Joining.returned; state = ts_terminated }

abbrev joined : Joining.Thread
joined = record { place = Joining.returned; state = ts_joined }

-- One thread, which main() waits for.
abbrev waited : Group
waited = record {
  mutex = 1;
  threads = Joining.new_thread ∷ [];
  tot_threads = 1;
  num_live = 1;
  num_unjoined = 0;
  main = Joining.asleep;
}

abbrev to_waited : Joining.Reach 1 waited
to_waited =
    let a : Joining.Reach 1 _ = Joining.later Joining.begin (create 0 refl) in
    let b : Joining.Reach 1 _ = Joining.later a (created refl) in
    let c : Joining.Reach 1 _ = Joining.later b (test_more refl (omega arith)) in
    let d : Joining.Reach 1 _ = Joining.later c (lock refl (omega arith)) in
    Joining.later d (check_wait refl refl)

-- The thread signals, and main() wakes up.
abbrev woken : Group
woken = record waited { threads = gone ∷ []; num_unjoined = 1; main = Joining.waking }

abbrev to_woken : Joining.Reach 1 woken
to_woken =
    let a : Joining.Reach 1 _ = Joining.later to_waited (thread_lock 0 _ refl refl (omega arith)) in
    let b : Joining.Reach 1 _ = Joining.later a (thread_update 0 _ refl refl) in
    let c : Joining.Reach 1 _ = Joining.later b (thread_unlock 0 _ refl refl) in
    Joining.later c (thread_signal 0 _ refl refl)

abbrev finished : Group
finished = record waited { threads = joined ∷ []; num_live = 0; main = Joining.exited }

abbrev to_finished : Joining.Reach 1 finished
to_finished =
    let a : Joining.Reach 1 _ = Joining.later to_woken (relock refl (omega arith)) in
    let b : Joining.Reach 1 _ = Joining.later a (check_more refl (omega arith)) in
    let c : Joining.Reach 1 _ = Joining.later b (join 0 _ refl (omega arith) refl refl refl) in
    let d : Joining.Reach 1 _ = Joining.later c (scanned 1 refl refl) in
    let e : Joining.Reach 1 _ = Joining.later d (release refl) in
    Joining.later e (test_end refl refl)

exited-joined_example :
    (length finished.threads ≡ 1) × (joined.place ≡ Joining.returned) × (joined.state ≡ ts_joined)
exited-joined_example = exited-joined 0 joined to_finished refl refl

Reach-IsSound_example : Joined.IsSound 1 woken
Reach-IsSound_example = Reach-IsSound to_woken

unended-CanMove_example : CanMove waited
unended-CanMove_example = unended-CanMove to_waited (λ e. cc)

moves-le_example : moves to_finished ≤ 1 * 1 + 17 * 1 + 6 + 3 * spurious_moves to_finished
moves-le_example = moves-le to_finished

moves_test : moves to_finished ≡ 15
moves_test = refl

abbrev order : List ℕ
order = 1 ∷ []

still_open : Producing.sleeping ≢ Producing.closed
still_open e = cc

-- One producer of one unit, which main() waits for.
abbrev hungry : Market
hungry = record {
  mutex = 1;
  avail = 0;
  producers = Producing.new_producer 1 ∷ [];
  tot_required = 1;
  num_consumed = 0;
  done = false;
  main = Producing.sleeping;
}

abbrev to_hungry : Producing.Reach order hungry
to_hungry =
    let a : Producing.Reach order _ = Producing.later Producing.begin (hire 1 [] refl) in
    let b : Producing.Reach order _ = Producing.later a (hired refl) in
    let c : Producing.Reach order _ = Producing.later b (enter refl (omega arith)) in
    Producing.later c (look_wait refl refl)

-- The unit is made, and main() is told.
abbrev served : Market
served = record hungry {
  avail = 1;
  producers = Producing.new_producer 0 ∷ [];
  main = Producing.rising;
}

abbrev to_served : Producing.Reach order served
to_served =
    let a : Producing.Reach order _ =
      Producing.later to_hungry (make 0 _ still_open refl refl (omega arith) (omega arith)) in
    let b : Producing.Reach order _ = Producing.later a (add 0 _ still_open refl refl) in
    let c : Producing.Reach order _ = Producing.later b (open_up 0 _ still_open refl refl) in
    Producing.later c (tell 0 _ still_open refl refl)

abbrev sated : Market
sated = record served { avail = 0; num_consumed = 1; done = true; main = Producing.closed }

abbrev to_sated : Producing.Reach order sated
to_sated =
    let a : Producing.Reach order _ = Producing.later to_served (reenter refl (omega arith)) in
    let b : Producing.Reach order _ = Producing.later a (look_more refl (omega arith)) in
    let c : Producing.Reach order _ = Producing.later b (consume refl (omega arith)) in
    let d : Producing.Reach order _ = Producing.later c (consumed_all refl refl) in
    let e : Producing.Reach order _ = Producing.later d (leave refl) in
    Producing.later e (close refl refl)

closed_all_consumed_example : HasInts sated × AtExit order sated Producing.closed
closed_all_consumed_example = closed_all_consumed to_sated (omega arith)

unclosed-CanTurn_example : CanTurn hungry
unclosed-CanTurn_example = unclosed-CanTurn to_hungry (omega arith) still_open

turns-le_example :
    turns to_sated ≤ 14 * sum order + 2 * length order + 6 + 3 * spurious_turns to_sated
turns-le_example = turns-le to_sated
