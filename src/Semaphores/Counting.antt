-- ===== src/Semaphores/Counting.antt =====
-- reserveSem() takes one from the value of a semaphore, and releaseSem() gives it back.
use mathlib.Core.Path.{subst}
use computer_science_notes.Base.{
  ℕ, zero, suc, ◌+◌, ◌-◌, ◌≤◌, ◌<◌, ◌≡◌, ◌≢◌, sym, ap, ◌∙◌, Bool, true, false, Option, none, some,
  arith,
}
use computer_science_notes.Base.Int.{ℤ, pos, minus_one}
use computer_science_notes.Semaphores.Binary.{
  Operated, operated, interrupted, failed, Settings, reserve_reply, reserve_sem, released,
  release_sem,
}

-- What a state says of the semaphores and of this process, while other processes may change the
-- values: how many units of each semaphore the process has taken and not given back, a bound of the
-- interruptions still to come, and how many of its calls have failed and how many have been
-- interrupted so far.
pub record View (W : Type 0) : Type 0 where
  pub held : W → ℕ → ℕ
  pub patience : W → ℕ
  pub failures : W → ℕ
  pub interruptions : W → ℕ

module _ {W : Type 0} (v : View W) where
  -- The units of the semaphores that are not `sem` are the same.
  abbrev pub OthersKept : ℕ → W → W → Type 0
  OthersKept sem w w' = (n : ℕ) → n ≢ sem → v.held w' n ≡ v.held w n

  abbrev pub AllKept : W → W → Type 0
  AllKept w w' = (n : ℕ) → v.held w' n ≡ v.held w n

  -- The documented effect of semop() with -1, which returns 0 when it has taken one, for which it
  -- may have waited, and is interrupted or fails without an effect.
  abbrev pub Takes : W → ℕ → Operated × W → Type 0
  Takes w sem (operated, w') =
      (v.held w' sem ≡ suc (v.held w sem))
      × OthersKept sem w w'
      × (v.patience w' ≤ v.patience w)
      × (v.failures w' ≡ v.failures w)
  Takes w sem (interrupted, w') =
      AllKept w w'
      × (v.patience w' < v.patience w)
      × (v.failures w' ≡ v.failures w)
      × (v.interruptions w' ≡ suc (v.interruptions w))
  Takes w sem (failed, w') =
      AllKept w w' × (v.failures w' ≡ suc (v.failures w)) × (v.interruptions w' ≡ v.interruptions w)

  -- And with 1.
  abbrev pub Gives : W → ℕ → Operated × W → Type 0
  Gives w sem (operated, w') = (v.held w' sem ≡ v.held w sem - 1) × OthersKept sem w w'
  Gives w sem (interrupted, w') = AllKept w w'
  Gives w sem (failed, w') = AllKept w w'

pub record IsSemaphoreSet {W : Type 0} (semop : W → ℕ → ℤ → Bool → Operated × W) : Type 0 where
  pub view : View W
  pub takes : (w : W) (sem : ℕ) (undo : Bool) → Takes view w sem (semop w sem minus_one undo)
  pub gives : (w : W) (sem : ℕ) (undo : Bool) → Gives view w sem (semop w sem (pos 1) undo)

module _ {W : Type 0} (v : View W) where
  -- The calls that make reserveSem() return -1: those that fail; and without a retry, those that
  -- are interrupted.
  abbrev pub ended_by : Bool → W → ℕ
  ended_by true w = v.failures w
  ended_by false w = v.failures w + v.interruptions w

  -- The results of reserveSem(): one has been taken, and no call has failed; or nothing has been
  -- taken, and one call that ends it has happened.
  abbrev pub IsReserved : Bool → ℕ → W → Option (Bool × W) → Type 0
  IsReserved retry sem w none = ⊥
  IsReserved retry sem w (some (true, w')) =
      (v.held w' sem ≡ suc (v.held w sem)) × OthersKept v sem w w' × (v.failures w' ≡ v.failures w)
  IsReserved retry sem w (some (false, w')) =
      AllKept v w w' × (ended_by retry w' ≡ suc (ended_by retry w))

  -- Where only an interruption has come before, the result counts from the state before.
  IsReserved-earlier :
      (sem : ℕ) (w u : W) (r : Option (Bool × W))
      → AllKept v w u
      → v.failures u ≡ v.failures w
      → IsReserved true sem u r
      → IsReserved true sem w r
  IsReserved-earlier sem w u none k q h = h
  IsReserved-earlier sem w u (some (true, w')) k q h =
      (h.0 ∙ ap suc (k sem), λ n d. h.1 n d ∙ k n, h.2 ∙ q)
  IsReserved-earlier sem w u (some (false, w')) k q h = (λ n. h.0 n ∙ k n, h.1 ∙ ap suc q)

  reserve_reply_lem :
      (again : W → Option (Bool × W)) (retry : Bool) (sem : ℕ) (w : W)
      → ((u : W) → v.patience u < v.patience w → IsReserved retry sem u (again u))
      → (r : Operated × W) → Takes v w sem r
      → IsReserved retry sem w (reserve_reply again retry r)
  unfolding reserve_reply
  reserve_reply_lem again retry sem w ih (operated, u) t = (t.0, t.1, t.3)
  reserve_reply_lem again true sem w ih (interrupted, u) t =
      IsReserved-earlier sem w u (again u) t.0 t.2 (ih u t.1)
  reserve_reply_lem again false sem w ih (interrupted, u) t = (t.0, omega (arith, t.2, t.3))
  reserve_reply_lem again true sem w ih (failed, u) t = (t.0, t.1)
  reserve_reply_lem again false sem w ih (failed, u) t = (t.0, omega (arith, t.1, t.2))

module _ {W : Type 0} (semop : W → ℕ → ℤ → Bool → Operated × W) (s : IsSemaphoreSet semop) where
  -- On a set of semaphores that other processes may change, reserveSem() returns, when it is given a
  -- round for each interruption and one more and semop() returns. Where it returns 0, the process has
  -- taken exactly one unit of the semaphore, once, however often it was interrupted, and none of the
  -- others, and no call has failed. Where it returns -1, it has taken none: one call has failed, or,
  -- where bsRetryOnEintr is off, one has failed or been interrupted.
  pub reserve_sem_lem :
      (fuel : ℕ) (b : Settings) (sem : ℕ) (w : W)
      → s.view.patience w < fuel
      → IsReserved s.view b.retry_on_eintr sem w (reserve_sem semop fuel b sem w)
  unfolding reserve_sem
  reserve_sem_lem zero b sem w f = absurd (omega arith)
  reserve_sem_lem (suc fuel) b sem w f =
      reserve_reply_lem s.view (reserve_sem semop fuel b sem) b.retry_on_eintr sem w
        (λ u l. reserve_sem_lem fuel b sem u (omega arith)) (semop w sem minus_one b.use_sem_undo)
        (s.takes w sem b.use_sem_undo)

  released_lem :
      (sem : ℕ) (w u w' : W) (r : Operated × W)
      → Gives s.view u sem r
      → s.view.held u sem ≡ suc (s.view.held w sem)
      → released r ≡ (true, w')
      → s.view.held w' sem ≡ s.view.held w sem
  unfolding released
  released_lem sem w u w' (operated, x) g h e =
      ap (λ q. s.view.held q.1 sem) (sym e) ∙ omega (arith, g.0, h)
  released_lem sem w u w' (interrupted, x) g h e =
      let clash : false ≡ true = ap (λ q. q.0) e in ground arith
  released_lem sem w u w' (failed, x) g h e =
      let clash : false ≡ true = ap (λ q. q.0) e in ground arith

  -- After a reservation and a release that both return 0 the process holds as many units of the
  -- semaphore as before them.
  pub release_sem-reserve_sem :
      (fuel : ℕ) (b : Settings) (sem : ℕ) (w u w' : W)
      → s.view.patience w < fuel
      → reserve_sem semop fuel b sem w ≡ some (true, u)
      → release_sem semop b sem u ≡ (true, w')
      → s.view.held w' sem ≡ s.view.held w sem
  unfolding release_sem
  release_sem-reserve_sem fuel b sem w u w' f h e =
      let taken =
        subst (IsReserved s.view b.retry_on_eintr sem w) h (reserve_sem_lem fuel b sem w f) in
      released_lem sem w u w' (semop u sem (pos 1) b.use_sem_undo) (s.gives u sem b.use_sem_undo)
        taken.0 e
