-- ===== src/Sockets/Writing.antt =====
-- writen() of sockets/rdwrn.c, over a write() that is a parameter.
use computer_science_notes.Base.{
  ℕ, zero, suc, ◌+◌, ◌-◌, Option, none, some, List, true, false, ltb, take, drop,
}

-- What write() gives: how many bytes were written, -1 with EINTR, or -1 with another error.
pub data Written : Type 0 where
  wrote : ℕ → Written
  write_interrupted : Written
  write_failed : Written

module _ {W : Type 0} where
  -- The body of writen()'s loop behind write(), where `again` is the next round.
  unfoldable pub writen_reply :
      (ℕ → W → Option (Option ℕ × W)) → ℕ → Written × W → Option (Option ℕ × W)
  writen_reply again total (wrote zero, w) = some (none, w)
  writen_reply again total (wrote (suc m), w) = again (total + suc m) w
  writen_reply again total (write_interrupted, w) = again total w
  writen_reply again total (write_failed, w) = some (none, w)

module _ {W : Type 0} (write : W → List ℕ → Written × W) where
  -- The loop of writen() for at most `fuel` rounds, with totWritten.
  unfoldable pub writen_loop : ℕ → List ℕ → ℕ → ℕ → W → Option (Option ℕ × W)
  writen_loop zero buffer n total w = none
  writen_loop (suc fuel) buffer n total w = elim (ltb total n) [
    | true ↦
        writen_reply (writen_loop fuel buffer n) total
          (write w (take (n - total) (drop total buffer)))
    | false ↦ some (some total, w)
  ]

  -- writen(): the first `n` bytes of the buffer.
  unfoldable pub writen : ℕ → List ℕ → ℕ → W → Option (Option ℕ × W)
  writen fuel buffer n w = writen_loop fuel buffer n 0 w
