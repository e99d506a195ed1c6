-- ===== src/Semaphores/Tests.antt =====
-- A set of semaphores on which other processes release in time what this one waits for, and that
-- interrupts some operations; and the functions on it.
use computer_science_notes.Base.{
  ℕ, zero, suc, ◌-◌, refl, Bool, true, false, arith, if◌then◌else◌, ◌==◌,
}
use computer_science_notes.Base.Int.{ℤ, pos, negsuc, minus_one}
use computer_science_notes.Semaphores.Binary.{
  Operated, operated, interrupted, Settings, reserve_sem,
}
use computer_science_notes.Semaphores.Counting.{
  View, IsSemaphoreSet, Takes, Gives, IsReserved, reserve_sem_lem,
}

-- How often a wait is still interrupted, how often one has been, and the units held.
abbrev Locks : Type 0
Locks = ℕ × ℕ × (ℕ → ℕ)

abbrev put_value : (ℕ → ℕ) → ℕ → ℕ → ℕ → ℕ
put_value values sem v n = if n == sem then v else values n

abbrev locks_op : Locks → ℕ → ℤ → Bool → Operated × Locks
locks_op (i, d, held) sem (pos _) undo = (operated, (i, d, put_value held sem (held sem - 1)))
locks_op (suc i, d, held) sem (negsuc _) undo = (interrupted, (i, suc d, held))
locks_op (zero, d, held) sem (negsuc _) undo =
    (operated, (0, d, put_value held sem (suc (held sem))))

abbrev locks_view : View Locks
locks_view = record {
  held = λ w. w.2;
  patience = λ w. w.0;
  failures = λ w. 0;
  interruptions = λ w. w.1;
}

locks_op-Takes :
    (w : Locks) (sem : ℕ) (undo : Bool) → Takes locks_view w sem (locks_op w sem minus_one undo)
locks_op-Takes (suc i, d, held) sem undo = (λ n. refl, omega arith, refl, refl)
locks_op-Takes (zero, d, held) sem undo = (ground arith, λ n d. ground arith, omega arith, refl)

locks_op-Gives :
    (w : Locks) (sem : ℕ) (undo : Bool) → Gives locks_view w sem (locks_op w sem (pos 1) undo)
locks_op-Gives (i, d, held) sem undo = (ground arith, λ n d. ground arith)

abbrev locks : IsSemaphoreSet locks_op
locks = record { view = locks_view; takes = locks_op-Takes; gives = locks_op-Gives }

abbrev retrying : Settings
retrying = record { use_sem_undo = false; retry_on_eintr = true }

-- Two interruptions to come, and nothing held.
abbrev available : Locks
available = (2, 0, λ n. 0)

reserve_sem_lem_example :
    IsReserved locks_view true 3 available (reserve_sem locks_op 5 retrying 3 available)
reserve_sem_lem_example = reserve_sem_lem locks_op locks 5 retrying 3 available (omega arith)
