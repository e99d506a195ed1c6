-- ===== src/Dtree/Progress.antt =====
-- The reading loop of inotify_dtree.c ends: what processNextInotifyEvent() returns moves the
-- pointer on.
use mathlib.Core.Path.{subst}
use computer_science_notes.Base.{
  ℕ, ◌+◌, ◌≤◌, ◌<◌, ◌≡◌, ◌≢◌, refl, sym, ap, ◌∙◌, inl, inr, Bool, true, false, not, ◌&&◌, Option,
  none, some, List, [], ◌∷◌, arith, if◌then◌else◌, Bool-cases, ◌==◌, ltb,
}
use computer_science_notes.Base.Int.{minus_one, ◌==ℤ◌}
use computer_science_notes.Dtree.Kernel.{Kernel, Event}
use computer_science_notes.Dtree.State.{Globals, M, pure, ◌>>=◌, ◌>>◌}
use computer_science_notes.Dtree.Slots.{find_watch_checked, path_at, mark_empty}
use computer_science_notes.Dtree.Subtree.{zap_subtree}
use computer_science_notes.Dtree.Roots.{zap_root_dir_path, is_root_dir_path}
use computer_science_notes.Dtree.Events
use computer_science_notes.Dtree.Events.{Flow, go_on, return_now, event_len, inotify_read_buf_len}
use computer_science_notes.Dtree.Invariant.Rules.{Post, Post-bind, Keeps-bind}
use computer_science_notes.Dtree.Counter.{
  Rebuilt, KeepsCount, path_at-KeepsCount, mark_empty-KeepsCount, find_watch_checked-KeepsCount,
  zap_root_dir_path-KeepsCount, zap_subtree-KeepsCount, check_and_dump-KeepsCount,
  on_create-KeepsCount, on_delete_self-KeepsCount, renew_descriptor-Rebuilt,
}
use computer_science_notes.Dtree.Consumed.{
  IsRename, one, two, all, Returned, Flows, then_pure, Alone, alone,
}

module _ {k : Kernel} (ev : Event) (rest : List Event) (size : ℕ) (first : Bool) (before : ℕ) where
  abbrev Ends : Globals k → (M k Flow) → Type 0
  Ends s m = Post (λ f t. Flows k ev rest size first before t.reinit_cnt f) (m s)

  -- The result of a branch that only keeps the count.
  goes_on-Ends :
      {A : Type 0} (m : M k A) (s : Globals k)
      → KeepsCount before m
      → s.reinit_cnt ≡ before
      → Alone k ev rest size
      → Ends s (m >>= λ _. pure (go_on (event_len k ev)))
  goes_on-Ends m s h e a =
      then_pure (λ f c. Flows k ev rest size first before c f) m (go_on (event_len k ev)) s before h
        e (one refl a.0 a.1 refl)

  start_again-Ends : (s : Globals k) → s.reinit_cnt ≡ before → Ends s Events.start_again
  unfolding Events.start_again
  start_again-Ends s e =
      Post-bind (λ _ t. t.reinit_cnt ≡ s.reinit_cnt + 1) _ Events.renew_descriptor _ s
        (renew_descriptor-Rebuilt s) (λ _ t q. all refl (q ∙ ap (λ c. c + 1) e))

  after_zap-Ends :
      (r : Option ℕ) (s : Globals k)
      → s.reinit_cnt ≡ before
      → Alone k ev rest size
      → Ends s (Events.after_zap ev r)
  unfolding Events.after_zap
  after_zap-Ends none s e a = start_again-Ends s e
  after_zap-Ends (some n) s e a = one refl a.0 a.1 e

  on_moved_out-Ends :
      (slot : Option ℕ) (s : Globals k)
      → s.reinit_cnt ≡ before
      → Alone k ev rest size
      → Ends s (Events.on_moved_out slot ev)
  unfolding Events.on_moved_out
  on_moved_out-Ends slot s e a =
      Post-bind (λ _. Rebuilt before) _ (path_at slot) _ s (path_at-KeepsCount before slot s e)
        (λ path t p.
          Post-bind (λ _. Rebuilt before) _ (zap_subtree t.inotify_fd _) (Events.after_zap ev) t
            (zap_subtree-KeepsCount before t.inotify_fd _ t p) (λ r u q. after_zap-Ends r u q a))

  rename_to-Ends :
      (slot : Option ℕ) (next_ev : Event) (more : List Event) (j : Option ℕ) (s : Globals k)
      → s.reinit_cnt ≡ before
      → rest ≡ next_ev ∷ more
      → IsRename k ev rest size
      → Ends s (Events.rename_to slot ev next_ev j)
  unfolding Events.rename_to
  rename_to-Ends slot next_ev more none s c e r = start_again-Ends s c
  rename_to-Ends slot next_ev more (some j) s c e r =
      Post-bind (λ _. Rebuilt before) _ (path_at slot) _ s (path_at-KeepsCount before slot s c)
        (λ a t p.
          Post-bind (λ _. Rebuilt before) _ (path_at (some j)) _ t
            (path_at-KeepsCount before (some j) t p) (λ b u q. two next_ev more e refl r q))

  on_root_moved-Ends :
      (path : _) (s : Globals k)
      → s.reinit_cnt ≡ before
      → Alone k ev rest size
      → Ends s (Events.on_root_moved path ev)
  unfolding Events.on_root_moved
  on_root_moved-Ends path s e a =
      Post-bind (λ _. Rebuilt before) _ (zap_root_dir_path path) _ s
        (zap_root_dir_path-KeepsCount before path s e)
        (λ _ t p.
          Post-bind (λ _. Rebuilt before) _ (zap_subtree t.inotify_fd path) (Events.after_zap ev) t
            (zap_subtree-KeepsCount before t.inotify_fd path t p) (λ r u q. after_zap-Ends r u q a))

  if-Ends :
      (b : Bool) (m n : M k Flow) (s : Globals k)
      → Ends s m
      → Ends s n
      → Ends s (if b then m else n)
  if-Ends true m n s hm hn = hm
  if-Ends false m n s hm hn = hn

  on_move_self-Ends :
      (slot : Option ℕ) (s : Globals k)
      → s.reinit_cnt ≡ before
      → Alone k ev rest size
      → Ends s (Events.on_move_self slot ev)
  unfolding Events.on_move_self
  on_move_self-Ends slot s e a =
      Post-bind (λ _. Rebuilt before) _ (path_at slot) _ s (path_at-KeepsCount before slot s e)
        (λ path t p.
          if-Ends (is_root_dir_path path t.root_dir_paths) _ _ t (on_root_moved-Ends path t p a)
            (one refl a.0 a.1 p))

  on_q_overflow-Ends : (s : Globals k) → s.reinit_cnt ≡ before → Ends s Events.on_q_overflow
  unfolding Events.on_q_overflow
  on_q_overflow-Ends s e =
      Post-bind (λ _ t. t.reinit_cnt ≡ s.reinit_cnt + 1) _ Events.renew_descriptor _ _
        (renew_descriptor-Rebuilt (record s { overflow_cnt = s.overflow_cnt + 1 }))
        (λ _ t q. all refl (q ∙ ap (λ c. c + 1) e))

  -- The IN_MOVED_TO is next, or it is not.
  match_next-Ends :
      (slot : Option ℕ) (evs : List Event) (s : Globals k)
      → s.reinit_cnt ≡ before
      → rest ≡ evs
      → Events.branch_of ev.mask ≡ Events.moved_from
      → event_len k ev < size
      → Ends s (Events.match_next slot ev evs)
  unfolding Events.match_next Events.on_rename
  match_next-Ends slot [] s c e b l = tt
  match_next-Ends slot (next_ev ∷ more) s c e b l =
      elim (Bool-cases (next_ev.mask.moved_to && next_ev.cookie == ev.cookie)) [
        | inl paired ↦
            rw (paired, Post)
              (Post-bind (λ _. Rebuilt before) _ (find_watch_checked next_ev.wd) _ s
                (find_watch_checked-KeepsCount before next_ev.wd s c)
                (λ j t p. rename_to-Ends slot next_ev more j t p e (
                  subst (λ l. IsRename k ev l size) (sym e)
                    (b, l, (pair paired).0, (pair paired).1))))
        | inr single ↦
            rw (single, Post)
              (on_moved_out-Ends slot s c (
                λ h. not_both (sym b ∙ h),
                λ r. not_paired (subst (λ l. IsRename k ev l size) e r) single,
              ))
      ]
    where
      pair :
          (next_ev.mask.moved_to && next_ev.cookie == ev.cookie) ≡ true
          → (next_ev.mask.moved_to ≡ true) × (next_ev.cookie ≡ ev.cookie)
      pair h = ground arith

      not_both : Events.moved_from ≢ Events.q_overflow
      not_both h = cc

      not_paired :
          IsRename k ev (next_ev ∷ more) size
          → (next_ev.mask.moved_to && next_ev.cookie == ev.cookie) ≡ false
          → ⊥
      not_paired r h = ground (arith, r.2, r.3)

  on_moved_from-Ends :
      (slot : Option ℕ) (s : Globals k)
      → s.reinit_cnt ≡ before
      → Events.branch_of ev.mask ≡ Events.moved_from
      → Ends s (Events.on_moved_from slot ev rest size first)
  unfolding Events.on_moved_from
  on_moved_from-Ends slot s c b = elim (Bool-cases (ltb (event_len k ev) size)) [
    | inl more ↦ rw (more, Post) (match_next-Ends slot rest s c refl b (ground arith))
    | inr last ↦ elim (Bool-cases first) [
      | inl e ↦ rw (last, e, Post) (e, b, ground arith, c)
      | inr e ↦
          rw (last, e, Post)
            (on_moved_out-Ends slot s c
              (λ h. not_both (sym b ∙ h), λ r. too_long rest r (ground arith)))
    ]
  ]
    where
      not_both : Events.moved_from ≢ Events.q_overflow
      not_both h = cc

      too_long : (evs : List Event) → IsRename k ev evs size → size ≤ event_len k ev → ⊥
      too_long [] r h = r
      too_long (x ∷ xs) r h = omega (arith, r.1)

  run_branch-Ends :
      (b : Events.Branch) (slot : Option ℕ) (s : Globals k)
      → s.reinit_cnt ≡ before
      → Events.branch_of ev.mask ≡ b
      → Ends s (Events.run_branch b slot ev rest size first)
  unfolding Events.run_branch
  run_branch-Ends Events.create slot s c e =
      goes_on-Ends (Events.on_create slot ev) s (on_create-KeepsCount before slot ev) c
        (alone k ev rest size _ e (λ h. cc) (λ h. cc))
  run_branch-Ends Events.delete_self slot s c e =
      goes_on-Ends (Events.on_delete_self slot) s (on_delete_self-KeepsCount before slot) c
        (alone k ev rest size _ e (λ h. cc) (λ h. cc))
  run_branch-Ends Events.moved_from slot s c e = on_moved_from-Ends slot s c e
  run_branch-Ends Events.q_overflow slot s c e = on_q_overflow-Ends s c
  run_branch-Ends Events.unmount slot s c e =
      goes_on-Ends (path_at slot >> mark_empty slot) s
        (Keeps-bind (Rebuilt before) (path_at slot) _ (path_at-KeepsCount before slot)
          (λ _. mark_empty-KeepsCount before slot))
        c (alone k ev rest size _ e (λ h. cc) (λ h. cc))
  run_branch-Ends Events.move_self slot s c e =
      on_move_self-Ends slot s c (alone k ev rest size _ e (λ h. cc) (λ h. cc))
  run_branch-Ends Events.other slot s c e =
      let a = alone k ev rest size _ e (λ h. cc) (λ h. cc) in one refl a.0 a.1 c

  finish-Returned :
      (f : Flow) (s : Globals k)
      → Flows k ev rest size first before s.reinit_cnt f
      → Post (λ r t. Returned k ev rest size first before t.reinit_cnt r) (Events.finish f s)
  unfolding Events.finish
  finish-Returned (go_on n) s h =
      then_pure (λ r c. Returned k ev rest size first before c r) Events.check_and_dump (some n) s
        s.reinit_cnt (check_and_dump-KeepsCount s.reinit_cnt) refl h
  finish-Returned (return_now r) s h = h

  process_with_slot-Returned :
      (slot : Option ℕ) (s : Globals k)
      → s.reinit_cnt ≡ before
      → Post
          (λ r t. Returned k ev rest size first before t.reinit_cnt r)
          (Events.process_with_slot slot ev rest size first s)
  unfolding Events.process_with_slot Events.dispatch
  process_with_slot-Returned slot s c =
      Post-bind (λ f t. Flows k ev rest size first before t.reinit_cnt f) _
        (Events.run_branch (Events.branch_of ev.mask) slot ev rest size first) Events.finish s
        (run_branch-Ends (Events.branch_of ev.mask) slot s c refl) (λ f t h. finish-Returned f t h)

  process_found-Returned :
      (slot : Option ℕ) (s : Globals k)
      → s.reinit_cnt ≡ before
      → Post
          (λ r t. Returned k ev rest size first before t.reinit_cnt r)
          (Events.process_found ev rest size first slot s)
  unfolding Events.process_found
  process_found-Returned none s c =
      Post-bind (λ f t. Flows k ev rest size first before t.reinit_cnt f) _ Events.start_again
        Events.finish s (start_again-Ends s c) (λ f t h. finish-Returned f t h)
  process_found-Returned (some j) s c = process_with_slot-Returned (some j) s c

-- Where processNextInotifyEvent() returns, it has done one of these. It has rebuilt the cache,
-- once, and consumed the whole buffer. Or it has not rebuilt it and consumed the event, which is no
-- IN_Q_OVERFLOW and no rename, or the two events of a rename: an IN_MOVED_FROM of a directory with
-- an IN_MOVED_TO of the same cookie next in the buffer. Or it returns -1 and has not rebuilt it:
-- only at the first try, for an IN_MOVED_FROM of a directory behind which the buffer holds nothing.
pub process_next_inotify_event-Returned :
    {k : Kernel} (ev : Event) (rest : List Event) (size : ℕ) (first : Bool) (s : Globals k)
    → Post
        (λ r t. Returned k ev rest size first s.reinit_cnt t.reinit_cnt r)
        (Events.process_next_inotify_event ev rest size first s)
unfolding Events.process_next_inotify_event
process_next_inotify_event-Returned {k} ev rest size first s =
    elim (Bool-cases (not (ev.wd ==ℤ minus_one) && not ev.mask.ignored)) [
      | inl e ↦
          rw (e, Post)
            (Post-bind (λ _. Rebuilt s.reinit_cnt) _ (find_watch_checked ev.wd) _ s
              (find_watch_checked-KeepsCount s.reinit_cnt ev.wd s refl)
              (λ slot t p. process_found-Returned ev rest size first s.reinit_cnt slot t p))
      | inr e ↦
          rw (e, Post) (process_with_slot-Returned ev rest size first s.reinit_cnt none s refl)
    ]
