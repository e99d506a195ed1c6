-- ===== src/Semaphores/Binary.antt =====
-- The functions of svsem/binary_sems.c on one semaphore set, over semop() and semctl() as
-- parameters.
use computer_science_notes.Base.{ℕ, zero, suc, Bool, true, false, Option, none, some}
use computer_science_notes.Base.Int.{ℤ, pos, minus_one}

-- What semop() gives: 0; -1 with EINTR; or -1 with another error.
pub data Operated : Type 0 where
  operated : Operated
  interrupted : Operated
  failed : Operated

-- bsUseSemUndo and bsRetryOnEintr.
pub record Settings : Type 0 where
  pub use_sem_undo : Bool
  pub retry_on_eintr : Bool

-- semctl() with SETVAL, of a semaphore and a value: whether it succeeds.
module _ {W : Type 0} (set_val : W → ℕ → ℕ → Bool × W) where
  unfoldable pub init_sem_available : ℕ → W → Bool × W
  init_sem_available sem w = set_val w sem 1

  unfoldable pub init_sem_in_use : ℕ → W → Bool × W
  init_sem_in_use sem w = set_val w sem 0

module _ {W : Type 0} where
  -- The body of reserveSem()'s loop behind semop(), where `again` is the next round: whether 0 is
  -- returned.
  unfoldable pub reserve_reply : (W → Option (Bool × W)) → Bool → Operated × W → Option (Bool × W)
  reserve_reply again retry (operated, w) = some (true, w)
  reserve_reply again true (interrupted, w) = again w
  reserve_reply again false (interrupted, w) = some (false, w)
  reserve_reply again retry (failed, w) = some (false, w)

  unfoldable pub released : Operated × W → Bool × W
  released (operated, w) = (true, w)
  released (interrupted, w) = (false, w)
  released (failed, w) = (false, w)

-- semop() with one operation: the semaphore, the number that is added, and whether SEM_UNDO is set.
module _ {W : Type 0} (semop : W → ℕ → ℤ → Bool → Operated × W) where
  -- reserveSem(), for at most `fuel` rounds of its loop.
  unfoldable pub reserve_sem : ℕ → Settings → ℕ → W → Option (Bool × W)
  reserve_sem zero b sem w = none
  reserve_sem (suc fuel) b sem w =
      reserve_reply (reserve_sem fuel b sem) b.retry_on_eintr (semop w sem minus_one b.use_sem_undo)

  -- releaseSem()
  unfoldable pub release_sem : Settings → ℕ → W → Bool × W
  release_sem b sem w = released (semop w sem (pos 1) b.use_sem_undo)
