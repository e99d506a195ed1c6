-- ===== src/Messages/Waiting.antt =====
-- No client of svmsg_file_server.c waits in vain where no call fails.
use computer_science_notes.Base.{
  ℕ, ◌<◌, ◌≡◌, ◌≢◌, refl, Bool, true, false, Option, none, some, List, [], ◌∷◌, get_elem?, arith,
}
use computer_science_notes.Messages.Serving.{
  MessageType, resp_mt_failure, resp_mt_data, resp_mt_end, Response, ChildPlace, unforked, opening,
  refusing, reading, sending, ending, child_exited, ClientPlace, asking, awaiting, judging, testing,
  receiving, served, refused, failed, Client, ClientStep, ChildStep, receive_first, refuse, accept,
  test_more, test_end, receive_next, open_file, open_fails, send_failure, read_some, read_end,
  send_data, send_end, ServerPlace, listening, forking, closing, gone, Service, ServerStep, ask,
  take_request, interrupted, fork, client_step, child_step, Reach,
}
use computer_science_notes.Messages.Fair.{has_final, is_over}
use computer_science_notes.Messages.Shared.{pending, IsSound, Reach-IsSound}

abbrev pub is_interruption :
    {faults : Bool} {room : List Response → Bool} {s t : Service}
    → ServerStep faults room s t
    → Bool
is_interruption (interrupted p) = true
is_interruption _ = false

-- Some step can be taken that is not a signal's interruption of the server.
abbrev pub CanServe : (List Response → Bool) → Service → Type 0
CanServe room s = (t : Service) × (m : ServerStep false room s t) × (is_interruption m ≡ false)

module _ (room : List Response → Bool) {files : List (Option (List ℕ))} {s : Service}
    (h : IsSound false files s) (empty : room [] ≡ true) (j : ℕ) (c : Client)
    (at : get_elem? s.clients j ≡ some c) where
  client_moves : {d : Client} → ClientStep false room c d → CanServe room s
  client_moves {d} m = (_, client_step j c d at m, refl)

  child_moves : {d : Client} → ChildStep false room c d → CanServe room s
  child_moves {d} m = (_, child_step j c d at m, refl)

  -- The server forks a child for the request that it has.
  forker_moves :
      (i : ℕ) (o : Option Client)
      → s.server ≡ forking i
      → get_elem? s.clients i ≡ o
      → CanServe room s
  forker_moves i none e k = absurd (ground (arith, h.known i k))
  forker_moves i (some d) e k = (_, fork i d e k, refl)

  -- While the client's request is in its hands, the server goes on.
  server_moves :
      (p : ServerPlace) (q : List ℕ)
      → s.server ≡ p
      → s.requests ≡ q
      → 0 < pending s j
      → CanServe room s
  server_moves listening [] e k l = absurd (ground arith)
  server_moves listening (i ∷ q) e k l = (_, take_request i q e k, refl)
  server_moves (forking i) q e k l = forker_moves i (get_elem? s.clients i) e refl
  server_moves closing q e k l = absurd (ground (arith, h.stays))
  server_moves gone q e k l = absurd (ground (arith, h.stays))

  opener_moves : (f : Option (List ℕ)) → c.child ≡ opening → c.file ≡ f → CanServe room s
  opener_moves none e k = child_moves (open_fails e k)
  opener_moves (some text) e k = child_moves (open_file text e k)

  reader_moves : (text : List ℕ) → c.child ≡ reading → c.unread ≡ text → CanServe room s
  reader_moves [] e k = child_moves (read_end e k)
  reader_moves (b ∷ text) e k =
      child_moves (read_some (b ∷ []) text e k (omega arith) (omega arith))

  -- With an empty queue, the child or the server goes on.
  sender_moves :
      (p : ChildPlace)
      → c.child ≡ p
      → c.queue ≡ []
      → is_over c.place ≡ false
      → has_final c.place ≡ false
      → c.place ≢ asking
      → CanServe room s
  sender_moves unforked e q o f a =
      server_moves s.server s.requests refl refl (ground (arith, h.fair j c at))
  sender_moves opening e q o f a = opener_moves c.file e refl
  sender_moves refusing e q o f a =
      child_moves (send_failure e (ground (arith, h.fair j c at)) (ground arith))
  sender_moves reading e q o f a = reader_moves c.unread e refl
  sender_moves (sending chunk) e q o f a =
      child_moves (send_data chunk e (ground (arith, h.fair j c at)) (ground arith))
  sender_moves ending e q o f a =
      child_moves (send_end e (ground (arith, h.fair j c at)) (ground arith))
  sender_moves child_exited e q o f a = absurd (ground (arith, h.fair j c at))

  awaiting_moves : (q : List Response) → c.place ≡ awaiting → c.queue ≡ q → CanServe room s
  awaiting_moves [] e k = sender_moves c.child refl k (ground arith) (ground arith) (ground arith)
  awaiting_moves (m ∷ q) e k = client_moves (receive_first m q e k)

  receiving_moves : (q : List Response) → c.place ≡ receiving → c.queue ≡ q → CanServe room s
  receiving_moves [] e k = sender_moves c.child refl k (ground arith) (ground arith) (ground arith)
  receiving_moves (m ∷ q) e k = client_moves (receive_next m q e k)

  judging_moves :
      (m : Response) (t : MessageType) → c.place ≡ judging m → m.mtype ≡ t → CanServe room s
  judging_moves m resp_mt_failure e k = client_moves (refuse m e k)
  judging_moves m resp_mt_data e k = client_moves (accept m e (ground arith))
  judging_moves m resp_mt_end e k = client_moves (accept m e (ground arith))

  main_moves : (p : ClientPlace) → c.place ≡ p → is_over p ≡ false → CanServe room s
  main_moves asking e o = (_, ask j c at e (ground (arith, h.stays)), refl)
  main_moves awaiting e o = awaiting_moves c.queue e refl
  main_moves (judging m) e o = judging_moves m m.mtype e refl
  main_moves (testing resp_mt_data) e o = client_moves (test_more e)
  main_moves (testing resp_mt_failure) e o = client_moves (test_end resp_mt_failure e (λ p. cc))
  main_moves (testing resp_mt_end) e o = client_moves (test_end resp_mt_end e (λ p. cc))
  main_moves receiving e o = receiving_moves c.queue e refl
  main_moves served e o = cc
  main_moves refused e o = cc
  main_moves failed e o = cc

-- Where no call fails and an empty queue has room for a message, there is no deadlock: while a client
-- has not exited, a step can be taken that is not a signal's interruption of the server.
pub waiting-CanServe :
    {room : List Response → Bool} {files : List (Option (List ℕ))} {s : Service} (j : ℕ)
    (c : Client)
    → Reach false room files s
    → room [] ≡ true
    → get_elem? s.clients j ≡ some c
    → is_over c.place ≡ false
    → CanServe room s
waiting-CanServe j c r empty at o = main_moves _ (Reach-IsSound r) empty j c at c.place refl o
