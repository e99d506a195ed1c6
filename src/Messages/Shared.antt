-- ===== src/Messages/Shared.antt =====
-- What holds of the server and all its clients together.
use computer_science_notes.Base.{
  ℕ, zero, suc, ◌+◌, ◌≤◌, ◌≡◌, ◌≢◌, ◌⊎◌, inl, inr, refl, sym, ap, ◌∙◌, Bool, true, false, Option,
  none, some, List, [], ◌∷◌, get_elem?, set, map, ◌==◌, arith,
}
use mathlib.Core.Path.{subst}
use computer_science_notes.Base.Counts.{weight, count, count-snoc}
use computer_science_notes.Messages.Serving.{
  opening, asking, awaiting, failed, Response, Client, new_client, leave, ClientStep, ChildStep,
  receive_first, refuse, accept, test_more, test_end, receive_next, first_fails, next_fails,
  open_file, open_fails, send_failure, failure_unsent, read_some, read_end, read_fails, send_data,
  data_unsent, send_end, end_unsent, ServerPlace, forking, closing, gone, Service, launched,
  ServerStep, ask, ask_fails, take_request, interrupted, take_fails, fork, fork_fails, remove_queue,
  client_step, child_step, Reach, begin, later,
}
use computer_science_notes.Messages.Fair.{
  strict, IsFair, new_client-IsFair, ClientStep-IsFair, ChildStep-IsFair,
}

abbrev at_fork : ServerPlace → ℕ → Bool
at_fork (forking i) j = i == j
at_fork _ j = false

-- How often the request of client `j` is in the server's hands.
abbrev pub pending : Service → ℕ → ℕ
pending s j = count (λ i. i == j) s.requests + weight (at_fork s.server j)

abbrev has_left : ServerPlace → ℕ
has_left closing = 1
has_left gone = 1
has_left _ = 0

pub record IsSound (faults : Bool) (files : List (Option (List ℕ))) (s : Service) : Type 0 where
  pub fair : (j : ℕ) (c : Client) → get_elem? s.clients j ≡ some c → IsFair faults (pending s j) c
  pub own : (j : ℕ) (c : Client) → get_elem? s.clients j ≡ some c → get_elem? files j ≡ some c.file
  pub known : (j : ℕ) → get_elem? s.clients j ≡ none → pending s j ≡ 0
  pub stays : strict faults + has_left s.server ≤ 1

set_cases :
    (l : List Client) (i j : ℕ) (c d e : Client)
    → get_elem? l i ≡ some c
    → get_elem? (set l i d) j ≡ some e
    → ((i ≡ j) × (e ≡ d)) ⊎ ((i ≢ j) × (get_elem? l j ≡ some e))
set_cases [] i j c d e h k = absurd (ground arith)
set_cases (x ∷ l) zero zero c d e h k = inl (refl, ground arith)
set_cases (x ∷ l) zero (suc j) c d e h k = inr ((λ q. cc), k)
set_cases (x ∷ l) (suc i) zero c d e h k = inr ((λ q. cc), k)
set_cases (x ∷ l) (suc i) (suc j) c d e h k = elim (set_cases l i j c d e h k) [
  | inl (p, q) ↦ inl (ap suc p, q)
  | inr (p, q) ↦ inr ((λ r. p (ground arith)), q)
]

set-none :
    (l : List Client) (i j : ℕ) (c d : Client)
    → get_elem? l i ≡ some c
    → get_elem? (set l i d) j ≡ none
    → (i ≢ j) × (get_elem? l j ≡ none)
set-none [] i j c d h k = absurd (ground arith)
set-none (x ∷ l) zero zero c d h k = absurd (ground arith)
set-none (x ∷ l) zero (suc j) c d h k = ((λ q. cc), k)
set-none (x ∷ l) (suc i) zero c d h k = absurd (ground arith)
set-none (x ∷ l) (suc i) (suc j) c d h k =
    let (p, q) = set-none l i j c d h k in ((λ r. p (ground arith)), q)

map_new :
    (files : List (Option (List ℕ))) (j : ℕ) (c : Client)
    → get_elem? (map new_client files) j ≡ some c
    → (f : Option (List ℕ)) × (get_elem? files j ≡ some f) × (c ≡ new_client f)
map_new [] j c h = absurd (ground arith)
map_new (f ∷ files) zero c h = (f, refl, ground arith)
map_new (f ∷ files) (suc j) c h = map_new files j c h

launched-IsSound :
    (faults : Bool) (files : List (Option (List ℕ))) → IsSound faults files (launched files)
launched-IsSound faults files = record {
  fair = λ j c h.
      let (f, p, e) = map_new files j c h in
      subst (λ d. IsFair faults 0 d) (sym e) (new_client-IsFair faults f);
  own = λ j c h. let (f, p, e) = map_new files j c h in p ∙ ap some (ap Client.file (sym e));
  known = λ j k. refl;
  stays = ground arith;
}

module _ {faults : Bool} {room : List Response → Bool} where
  ClientStep-file : {c d : Client} → ClientStep faults room c d → d.file ≡ c.file
  ClientStep-file (receive_first m rest p q) = refl
  ClientStep-file (refuse m p q) = refl
  ClientStep-file (accept m p q) = refl
  ClientStep-file (test_more p) = refl
  ClientStep-file (test_end t p q) = refl
  ClientStep-file (receive_next m rest p q) = refl
  ClientStep-file (first_fails f p) = refl
  ClientStep-file (next_fails f p) = refl

  ChildStep-file : {c d : Client} → ChildStep faults room c d → d.file ≡ c.file
  ChildStep-file (open_file text p q) = refl
  ChildStep-file (open_fails p q) = refl
  ChildStep-file (send_failure p o r) = refl
  ChildStep-file (failure_unsent p o) = refl
  ChildStep-file (read_some chunk rest p q l b) = refl
  ChildStep-file (read_end p q) = refl
  ChildStep-file (read_fails f p) = refl
  ChildStep-file (send_data chunk p o r) = refl
  ChildStep-file (data_unsent chunk p o) = refl
  ChildStep-file (send_end p o r) = refl
  ChildStep-file (end_unsent p o) = refl

fewer-IsFair :
    {faults : Bool} {n k : ℕ} {c : Client}
    → faults ≡ true
    → k ≤ n
    → IsFair faults n c
    → IsFair faults k c
fewer-IsFair f p h = ground arith

module _ {faults : Bool} {files : List (Option (List ℕ))} {s : Service}
    (h : IsSound faults files s) where
  -- Client `i` changes, and the others' requests stay where they are.
  one_changes :
      (t : Service) (i : ℕ) (c d : Client)
      → get_elem? s.clients i ≡ some c
      → t.clients ≡ set s.clients i d
      → d.file ≡ c.file
      → IsFair faults (pending t i) d
      → ((j : ℕ) → i ≢ j → pending t j ≡ pending s j)
      → strict faults + has_left t.server ≤ 1
      → IsSound faults files t
  one_changes t i c d at e f new others l = record {
    fair = λ j x k. elim (set_cases s.clients i j c d x at (ap (λ v. get_elem? v j) (sym e) ∙ k)) [
      | inl (p, q) ↦
          subst (λ m. IsFair faults (pending t m) x) p
            (subst (IsFair faults (pending t i)) (sym q) new)
      | inr (p, q) ↦ subst (λ n. IsFair faults n x) (sym (others j p)) (h.fair j x q)
    ];
    own = λ j x k. elim (set_cases s.clients i j c d x at (ap (λ v. get_elem? v j) (sym e) ∙ k)) [
      | inl (p, q) ↦
          let o = h.own i c at in
          subst (λ m. get_elem? files m ≡ some x.file) p
            (o ∙ ap some (sym f ∙ ap Client.file (sym q)))
      | inr (p, q) ↦ h.own j x q
    ];
    known = λ j k.
        let (p, q) = set-none s.clients i j c d at (ap (λ v. get_elem? v j) (sym e) ∙ k) in
        others j p ∙ h.known j q;
    stays = l;
  }

  -- The clients stay as they are; the requests do, or calls may fail and there are fewer.
  none_changes :
      (t : Service)
      → t.clients ≡ s.clients
      → ((j : ℕ) → (pending t j ≡ pending s j) ⊎ ((faults ≡ true) × (pending t j ≤ pending s j)))
      → strict faults + has_left t.server ≤ 1
      → IsSound faults files t
  none_changes t e fewer l = record {
    fair = λ j x k.
        let old = h.fair j x (ap (λ v. get_elem? v j) (sym e) ∙ k) in
        elim (fewer j) [
          | inl p ↦ subst (λ n. IsFair faults n x) (sym p) old
          | inr (f, p) ↦ fewer-IsFair f p old
        ];
    own = λ j x k. h.own j x (ap (λ v. get_elem? v j) (sym e) ∙ k);
    known = λ j k.
        let old = h.known j (ap (λ v. get_elem? v j) (sym e) ∙ k) in
        let new = fewer j in ground arith;
    stays = l;
  }

asked :
    {faults : Bool} {n k : ℕ} {c : Client}
    → IsFair faults n c
    → c.place ≡ asking
    → k ≡ n + 1
    → IsFair faults k (record c { place = awaiting })
asked h p e = ground arith

must_fail : {faults : Bool} → strict faults ≡ 0 → faults ≡ true
must_fail {faults} h = ground arith

spoilt :
    {faults : Bool} {p : ServerPlace}
    → (faults ≡ true) ⊎ (p ≡ gone)
    → strict faults + has_left p ≤ 1
    → faults ≡ true
spoilt g h = ground arith

ask_failed :
    {faults : Bool} {n : ℕ} {c : Client}
    → IsFair faults n c
    → c.place ≡ asking
    → faults ≡ true
    → IsFair faults n (leave failed c)
ask_failed h p f = ground arith

forked :
    {faults : Bool} {n k : ℕ} {c : Client}
    → IsFair faults n c
    → n ≡ k + 1
    → IsFair faults k (record c { child = opening })
forked h e = ground arith

module _ {faults : Bool} {room : List Response → Bool} {files : List (Option (List ℕ))} where
  ServerStep-IsSound :
      {s t : Service} → ServerStep faults room s t → IsSound faults files s → IsSound faults files t
  ServerStep-IsSound {s = s} (ask i c at p g) h =
      let d : Client = record c { place = awaiting } in
      one_changes h _ i c d at refl refl
        (asked (h.fair i c at) p (ground (arith, count-snoc (λ k. k == i) s.requests i)))
        (λ j n. ground (arith, count-snoc (λ k. k == j) s.requests i)) h.stays
  ServerStep-IsSound (ask_fails i c at p g) h =
      one_changes h _ i c (leave failed c) at refl refl
        (ask_failed (h.fair i c at) p (spoilt g h.stays)) (λ j n. refl) h.stays
  ServerStep-IsSound {s = s} (take_request i rest p q) h =
      none_changes h _ refl (λ j. inl (ground arith)) (ground (arith, h.stays))
  ServerStep-IsSound (interrupted p) h = h
  ServerStep-IsSound (take_fails f p) h =
      none_changes h _ refl (λ j. inr (f, ground arith)) (ground (arith, h.stays))
  ServerStep-IsSound {s = s} (fork i c p at) h =
      let d : Client = record c { child = opening } in
      one_changes h _ i c d at refl refl (forked (h.fair i c at) (ground arith))
        (λ j n. ground arith) (ground (arith, h.stays))
  ServerStep-IsSound (fork_fails i f p) h =
      none_changes h _ refl (λ j. inr (f, ground arith)) (ground (arith, h.stays))
  ServerStep-IsSound (remove_queue p) h =
      none_changes h _ refl (λ j. inr (must_fail (ground (arith, h.stays)), ground arith))
        (ground (arith, h.stays))
  ServerStep-IsSound (client_step i c d at m) h =
      one_changes h _ i c d at refl (ClientStep-file m) (ClientStep-IsFair m (h.fair i c at))
        (λ j n. refl) h.stays
  ServerStep-IsSound (child_step i c d at m) h =
      one_changes h _ i c d at refl (ChildStep-file m) (ChildStep-IsFair m (h.fair i c at))
        (λ j n. refl) h.stays

  pub Reach-IsSound : {s : Service} → Reach faults room files s → IsSound faults files s
  Reach-IsSound begin = launched-IsSound faults files
  Reach-IsSound (later r m) = ServerStep-IsSound m (Reach-IsSound r)
