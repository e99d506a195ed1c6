-- ===== src/Messages/Tests.antt =====
-- A run of svmsg_file_server.c with two clients, one of which asks for a file that is not there.
use computer_science_notes.Base.{
  ℕ, ◌+◌, ◌*◌, ◌-◌, ◌≤◌, ◌≡◌, ◌≢◌, refl, Bool, false, Option, some, none, List, [], ◌∷◌, length,
  ltb, arith,
}
use computer_science_notes.Base.Counts.{total}
use computer_science_notes.Messages.Serving.{
  resp_mt_failure, resp_mt_data, resp_mt_end, Response, child_exited, awaiting, served, Client,
  new_client, receive_first, accept, test_more, test_end, receive_next, open_file, read_some,
  read_end, send_data, send_end, listening, gone, Service, ask, interrupted, take_request, fork,
  client_step, child_step, Reach, begin, later, resp_msg_size,
}
use computer_science_notes.Messages.Delivered.{over-Told}
use computer_science_notes.Messages.Waiting.{CanServe, waiting-CanServe}
use computer_science_notes.Messages.Spent.{acts, interruptions, acts-le, file_size}

abbrev two_files : List (Option (List ℕ))
two_files = some (7 ∷ 8 ∷ []) ∷ none ∷ []

abbrev room_for_two : List Response → Bool
room_for_two q = ltb (length q) 2

abbrev Run : Service → Type 0
Run s = Reach false room_for_two two_files s

abbrev first_client : Client
first_client = record (new_client (some (7 ∷ 8 ∷ []))) { child = child_exited }

-- Both have asked, and the child of the first has sent its file.
abbrev sent : Service
sent = record {
  clients =
      record first_client {
        place = awaiting;
        queue =
            record { mtype = resp_mt_data; text = 7 ∷ 8 ∷ [] }
            ∷ record { mtype = resp_mt_end; text = [] }
            ∷ [];
      }
      ∷ record (new_client none) { place = awaiting }
      ∷ [];
  requests = 1 ∷ [];
  server = listening;
}

still_there : listening ≢ gone
still_there e = cc

no_failure : resp_mt_data ≢ resp_mt_failure
no_failure e = cc

no_data : resp_mt_end ≢ resp_mt_data
no_data e = cc

abbrev to_sent : Run sent
to_sent =
    let a : Run _ = later begin (ask 0 _ refl refl still_there) in
    let b : Run _ = later a (ask 1 _ refl refl still_there) in
    let c : Run _ = later b (interrupted refl) in
    let d : Run _ = later c (take_request 0 _ refl refl) in
    let e : Run _ = later d (fork 0 _ refl refl) in
    let f : Run _ = later e (child_step 0 _ _ refl (open_file _ refl refl)) in
    let g : Run _ =
      later f
        (child_step 0 _ _ refl (read_some (7 ∷ 8 ∷ []) [] refl refl (omega arith) (omega arith))) in
    let h : Run _ = later g (child_step 0 _ _ refl (send_data _ refl refl refl)) in
    let i : Run _ = later h (child_step 0 _ _ refl (read_end refl refl)) in
    later i (child_step 0 _ _ refl (send_end refl refl refl))

-- The first client has printed its totals.
abbrev told_client : Client
told_client = record first_client { place = served; has_queue = false; tot_bytes = 2; num_msgs = 2 }

abbrev told : Service
told = record sent { clients = told_client ∷ record (new_client none) { place = awaiting } ∷ [] }

abbrev to_told : Run told
to_told =
    let a : Run _ = later to_sent (client_step 0 _ _ refl (receive_first _ _ refl refl)) in
    let b : Run _ = later a (client_step 0 _ _ refl (accept _ refl no_failure)) in
    let c : Run _ = later b (client_step 0 _ _ refl (test_more refl)) in
    let d : Run _ = later c (client_step 0 _ _ refl (receive_next _ _ refl refl)) in
    later d (client_step 0 _ _ refl (test_end _ refl no_data))

over-Told_example :
    (told_client.place ≡ served)
    × (told_client.tot_bytes ≡ 2)
    × (told_client.tot_bytes ≤ resp_msg_size * (told_client.num_msgs - 1))
    × (told_client.num_msgs ≤ told_client.tot_bytes + 1)
over-Told_example = over-Told 0 told_client (some (7 ∷ 8 ∷ [])) to_told refl refl refl

waiting-CanServe_example : CanServe room_for_two told
waiting-CanServe_example =
    waiting-CanServe 1 (record (new_client none) { place = awaiting }) to_told refl refl refl

acts-le_example :
    acts to_told ≤ 4 * total file_size two_files + 16 * length two_files + 2 + interruptions to_told
acts-le_example = acts-le to_told
