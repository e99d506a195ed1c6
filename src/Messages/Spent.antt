-- ===== src/Messages/Spent.antt =====
-- svmsg_file_server.c and its clients make a bounded number of steps, but for interruptions.
use computer_science_notes.Base.{
  ℕ, ◌+◌, ◌*◌, ◌≤◌, ◌≡◌, ap, Bool, Option, none, some, List, [], ◌∷◌, length, length-append, map,
  arith,
}
use computer_science_notes.Base.Counts.{weight, total, total-set}
use computer_science_notes.Messages.Serving.{
  resp_mt_failure, resp_mt_data, resp_mt_end, Response, couldnt_open, ChildPlace, unforked, opening,
  refusing, reading, sending, ending, child_exited, ClientPlace, asking, awaiting, judging, testing,
  receiving, failed, Client, new_client, leave, ClientStep, receive_first, refuse, accept,
  test_more, test_end, receive_next, first_fails, next_fails, ChildStep, open_file, open_fails,
  send_failure, failure_unsent, read_some, read_end, read_fails, send_data, data_unsent, send_end,
  end_unsent, ServerPlace, listening, forking, closing, gone, Service, launched, ServerStep, ask,
  ask_fails, take_request, interrupted, take_fails, fork, fork_fails, remove_queue, client_step,
  child_step, Reach, begin, later,
}
use computer_science_notes.Messages.Shared.{IsSound, Reach-IsSound}
use computer_science_notes.Messages.Waiting.{is_interruption}

abbrev pub file_size : Option (List ℕ) → ℕ
file_size none = 0
file_size (some text) = length text

-- The steps that a client has still to make, its child, and the server; a message is worth the two
-- that are made to receive it, a request the three to take it and to fork.
abbrev place_steps : ClientPlace → ℕ
place_steps asking = 6
place_steps awaiting = 2
place_steps (judging m) = 3
place_steps (testing t) = 2
place_steps receiving = 1
place_steps _ = 0

abbrev child_steps : ChildPlace → ℕ → ℕ → ℕ
child_steps unforked size unread = 4 * size + 10
child_steps opening size unread = 4 * size + 9
child_steps refusing size unread = 7
child_steps reading size unread = 4 * unread + 8
child_steps (sending chunk) size unread = 4 * unread + 11
child_steps ending size unread = 7
child_steps child_exited size unread = 0

abbrev client_steps : Client → ℕ
client_steps c =
    place_steps c.place
    + child_steps c.child (file_size c.file) (length c.unread)
    + 2 * length c.queue

abbrev server_steps : ServerPlace → ℕ
server_steps listening = 2
server_steps (forking i) = 4
server_steps closing = 1
server_steps gone = 0

abbrev steps_left : Service → ℕ
steps_left s = total client_steps s.clients + 3 * length s.requests + server_steps s.server

module _ {faults : Bool} {room : List Response → Bool} where
  ClientStep-decreases :
      {c d : Client} → ClientStep faults room c d → client_steps d + 1 ≤ client_steps c
  ClientStep-decreases (receive_first m rest p q) = ground arith
  ClientStep-decreases (refuse m p q) = ground arith
  ClientStep-decreases (accept m p q) = ground arith
  ClientStep-decreases (test_more p) = ground arith
  ClientStep-decreases (test_end t p q) = ground arith
  ClientStep-decreases (receive_next m rest p q) = ground arith
  ClientStep-decreases (first_fails f p) = ground arith
  ClientStep-decreases (next_fails f p) = ground arith

  ChildStep-decreases :
      {c d : Client} → ChildStep faults room c d → client_steps d + 1 ≤ client_steps c
  ChildStep-decreases (open_file text p q) = ground arith
  ChildStep-decreases (open_fails p q) = ground arith
  ChildStep-decreases {c = c} (send_failure p o r) =
      ground (
        arith,
        length-append c.queue (record { mtype = resp_mt_failure; text = couldnt_open } ∷ []),
      )
  ChildStep-decreases (failure_unsent p o) = ground arith
  ChildStep-decreases (read_some chunk rest p q l b) =
      ground (arith, ap length q, length-append chunk rest)
  ChildStep-decreases (read_end p q) = ground arith
  ChildStep-decreases (read_fails f p) = ground arith
  ChildStep-decreases {c = c} (send_data chunk p o r) =
      ground (arith, length-append c.queue (record { mtype = resp_mt_data; text = chunk } ∷ []))
  ChildStep-decreases (data_unsent chunk p o) = ground arith
  ChildStep-decreases {c = c} (send_end p o r) =
      ground (arith, length-append c.queue (record { mtype = resp_mt_end; text = [] } ∷ []))
  ChildStep-decreases (end_unsent p o) = ground arith

module _ {faults : Bool} {room : List Response → Bool} {files : List (Option (List ℕ))} where
  ServerStep-decreases :
      {s t : Service} (m : ServerStep faults room s t)
      → IsSound faults files s
      → steps_left t + 1 ≤ steps_left s + weight (is_interruption m)
  ServerStep-decreases {s = s} (ask i c at p g) h = ground (
    arith,
    total-set client_steps s.clients i c (record c { place = awaiting }) at,
    length-append s.requests (i ∷ []),
  )
  ServerStep-decreases {s = s} (ask_fails i c at p g) h =
      ground (arith, total-set client_steps s.clients i c (leave failed c) at)
  ServerStep-decreases (take_request i rest p q) h = ground arith
  ServerStep-decreases (interrupted p) h = omega arith
  ServerStep-decreases (take_fails f p) h = ground arith
  ServerStep-decreases {s = s} (fork i c p at) h =
      ground (
        arith,
        total-set client_steps s.clients i c (record c { child = opening }) at,
        h.fair i c at,
      )
  ServerStep-decreases (fork_fails i f p) h = ground arith
  ServerStep-decreases (remove_queue p) h = ground arith
  ServerStep-decreases {s = s} (client_step i c d at m) h =
      ground (arith, total-set client_steps s.clients i c d at, ClientStep-decreases m)
  ServerStep-decreases {s = s} (child_step i c d at m) h =
      ground (arith, total-set client_steps s.clients i c d at, ChildStep-decreases m)

-- The steps of a run, and those of them that are interruptions of the server.
abbrev pub acts :
    {faults : Bool} {room : List Response → Bool} {files : List (Option (List ℕ))} {s : Service}
    → Reach faults room files s
    → ℕ
acts begin = 0
acts (later r m) = acts r + 1

abbrev pub interruptions :
    {faults : Bool} {room : List Response → Bool} {files : List (Option (List ℕ))} {s : Service}
    → Reach faults room files s
    → ℕ
interruptions begin = 0
interruptions (later r m) = interruptions r + weight (is_interruption m)

total-launched :
    (files : List (Option (List ℕ)))
    → total client_steps (map new_client files) ≡ 4 * total file_size files + 16 * length files
total-launched [] = omega arith
total-launched (f ∷ files) = omega (arith, total-launched files)

acts_paid :
    {faults : Bool} {room : List Response → Bool} {files : List (Option (List ℕ))} {s : Service}
    (r : Reach faults room files s)
    → acts r + steps_left s ≤ steps_left (launched files) + interruptions r
acts_paid begin = omega arith
acts_paid (later r m) = omega (arith, acts_paid r, ServerStep-decreases m (Reach-IsSound r))

-- Whatever fails, a run of the server and its clients has at most four steps for each byte of the
-- files, sixteen for each client, two more and the interruptions of the server.
pub acts-le :
    {faults : Bool} {room : List Response → Bool} {files : List (Option (List ℕ))} {s : Service}
    (r : Reach faults room files s)
    → acts r ≤ 4 * total file_size files + 16 * length files + 2 + interruptions r
acts-le {files = files} r = omega (arith, acts_paid r, total-launched files)
