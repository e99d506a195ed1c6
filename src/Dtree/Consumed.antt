-- ===== src/Dtree/Consumed.antt =====
-- What a call of processNextInotifyEvent() in inotify_dtree.c consumes of the buffer.
use mathlib.Core.Path.{subst}
use computer_science_notes.Base.{
  ℕ, ◌+◌, ◌≤◌, ◌<◌, ◌≡◌, ◌≢◌, sym, ◌∙◌, Bool, true, Option, none, some, List, [], ◌∷◌,
}
use computer_science_notes.Dtree.Kernel.{Kernel, Event}
use computer_science_notes.Dtree.State.{Globals, M, pure, ◌>>=◌}
use computer_science_notes.Dtree.Events
use computer_science_notes.Dtree.Events.{Flow, go_on, return_now, event_len, inotify_read_buf_len}
use computer_science_notes.Dtree.Invariant.Rules.{Post, Post-bind}
use computer_science_notes.Dtree.Counter.{Rebuilt, KeepsCount}

-- The event is an IN_MOVED_FROM of a directory, and its IN_MOVED_TO, with the same cookie, is next
-- in the buffer.
abbrev pub IsRename : Kernel → Event → List Event → ℕ → Type 0
IsRename k ev [] size = ⊥
IsRename k ev (next_ev ∷ more) size =
    (Events.branch_of ev.mask ≡ Events.moved_from)
    × (event_len k ev < size)
    × (next_ev.mask.moved_to ≡ true)
    × (next_ev.cookie ≡ ev.cookie)

-- What a call at `ev` consumes, where the cache had been rebuilt `before` times when it began, and
-- `after` times when it returns: this event, where it is no overflow and no rename; the two events
-- of a rename; or the whole buffer, where the call has rebuilt the cache, once.
pub data Consumes (k : Kernel) (ev : Event) (rest : List Event) (size before after n : ℕ)
    : Type 0 where
  one :
      n ≡ event_len k ev
      → Events.branch_of ev.mask ≢ Events.q_overflow
      → ¬ IsRename k ev rest size
      → after ≡ before
      → Consumes k ev rest size before after n
  two :
      (next_ev : Event) (more : List Event)
      → rest ≡ next_ev ∷ more
      → n ≡ event_len k ev + event_len k next_ev
      → IsRename k ev rest size
      → after ≡ before
      → Consumes k ev rest size before after n
  all : n ≡ inotify_read_buf_len k → after ≡ before + 1 → Consumes k ev rest size before after n

-- The -1 is returned only at the first try, at an IN_MOVED_FROM that fills what is left of the
-- buffer, and the cache is not rebuilt.
abbrev pub Returned : (k : Kernel) → Event → List Event → ℕ → Bool → ℕ → ℕ → Option ℕ → Type 0
Returned k ev rest size first before after none =
    (first ≡ true)
    × (Events.branch_of ev.mask ≡ Events.moved_from)
    × (size ≤ event_len k ev)
    × (after ≡ before)
Returned k ev rest size first before after (some n) = Consumes k ev rest size before after n

abbrev pub Flows : (k : Kernel) → Event → List Event → ℕ → Bool → ℕ → ℕ → Flow → Type 0
Flows k ev rest size first before after (go_on n) = Consumes k ev rest size before after n
Flows k ev rest size first before after (return_now r) =
    Returned k ev rest size first before after r

-- A call that keeps the count, and then a result.
pub then_pure :
    {k : Kernel} {A B : Type 0} (P : B → ℕ → Type 0) (m : M k A) (b : B) (s : Globals k) (c : ℕ)
    → KeepsCount c m
    → s.reinit_cnt ≡ c
    → P b c
    → Post (λ r t. P r t.reinit_cnt) ((m >>= λ _. pure b) s)
then_pure P m b s c h e p =
    Post-bind (λ _ t. Rebuilt c t) (λ r t. P r t.reinit_cnt) m (λ _. pure b) s (h s e)
      (λ _ t q. subst (P b) (sym q) p)

not-IsRename :
    (k : Kernel) (ev : Event) (rest : List Event) (size : ℕ) (b : Events.Branch)
    → Events.branch_of ev.mask ≡ b
    → b ≢ Events.moved_from
    → ¬ IsRename k ev rest size
not-IsRename k ev [] size b e n h = h
not-IsRename k ev (next_ev ∷ more) size b e n h = n (sym e ∙ h.0)

-- The event stands alone.
abbrev pub Alone : Kernel → Event → List Event → ℕ → Type 0
Alone k ev rest size = (Events.branch_of ev.mask ≢ Events.q_overflow) × (¬ IsRename k ev rest size)

pub alone :
    (k : Kernel) (ev : Event) (rest : List Event) (size : ℕ) (b : Events.Branch)
    → Events.branch_of ev.mask ≡ b
    → b ≢ Events.q_overflow
    → b ≢ Events.moved_from
    → Alone k ev rest size
alone k ev rest size b e q m = (λ h. q (sym e ∙ h), not-IsRename k ev rest size b e m)
