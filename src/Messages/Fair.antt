-- ===== src/Messages/Fair.antt =====
-- What holds of each client of svmsg_file_server.c between two steps: no byte of its file is lost or
-- counted twice, whatever the other clients do.
use computer_science_notes.Base.{
  ℕ, ◌+◌, ◌-◌, ◌*◌, ◌≤◌, ◌≡◌, ap, Bool, true, false, ◌||◌, ◌&&◌, not, Option, none, some, List, [],
  ◌∷◌, ◌++◌, length, length-append, ltb, leb, ◌==◌, arith,
}
use computer_science_notes.Base.Counts.{weight, count, count-snoc, total, total-snoc}
use computer_science_notes.Messages.Serving.{
  MessageType, resp_mt_failure, resp_mt_data, resp_mt_end, Response, couldnt_open, resp_msg_size,
  ChildPlace, unforked, opening, refusing, reading, sending, ending, child_exited, ClientPlace,
  asking, awaiting, judging, testing, receiving, served, refused, failed, Client, new_client,
  ClientStep, receive_first, refuse, accept, test_more, test_end, receive_next, first_fails,
  next_fails, ChildStep, open_file, open_fails, send_failure, failure_unsent, read_some, read_end,
  read_fails, send_data, data_unsent, send_end, end_unsent,
}

-- 1 where no call fails.
abbrev pub strict : Bool → ℕ
strict true = 0
strict false = 1

abbrev demand : Bool → ℕ → ℕ
demand true n = 0
demand false n = n

abbrev is_asking : ClientPlace → ℕ
is_asking asking = 1
is_asking _ = 0

abbrev is_forked : ChildPlace → ℕ
is_forked unforked = 0
is_forked _ = 1

abbrev type_final : MessageType → Bool
type_final resp_mt_data = false
type_final _ = true

-- The last message that a client is sent.
abbrev is_final : Response → Bool
is_final m = type_final m.mtype

-- The client has the last message.
abbrev pub has_final : ClientPlace → Bool
has_final (judging m) = is_final m
has_final (testing t) = type_final t
has_final served = true
has_final refused = true
has_final _ = false

abbrev pub is_over : ClientPlace → Bool
is_over served = true
is_over refused = true
is_over failed = true
is_over _ = false

abbrev to_come : ChildPlace → ℕ
to_come child_exited = 0
to_come _ = 1

abbrev size_if : MessageType → ℕ → ℕ
size_if resp_mt_failure n = 0
size_if _ n = n

-- The bytes of the file that a message holds.
abbrev message_bytes : Response → ℕ
message_bytes m = size_if m.mtype (length m.text)

abbrev held : ChildPlace → ℕ
held (sending chunk) = length chunk
held _ = 0

abbrev pub counted : ClientPlace → ℕ → ℕ
counted (judging m) n = message_bytes m
counted _ n = n

-- The bytes of the file, at the client, in the queue, in the child's hands and unread.
abbrev pub whole : Client → ℕ
whole c = counted c.place c.tot_bytes + total message_bytes c.queue + held c.child + length c.unread

abbrev file_size : Option (List ℕ) → ℕ
file_size none = 0
file_size (some text) = length text

-- What has been opened of a number of bytes.
abbrev opened : ChildPlace → ℕ → ℕ
opened unforked k = 0
opened opening k = 0
opened _ k = k

-- What the child has not read when it has stopped reading.
abbrev missed : ChildPlace → ℕ → ℕ
missed ending n = n
missed child_exited n = n
missed _ n = 0

abbrev is_empty : List Response → Bool
is_empty [] = true
is_empty (m ∷ q) = false

-- Nothing stands behind a last message.
abbrev tidy : List Response → Bool
tidy [] = true
tidy (m ∷ q) = (not (is_final m) || is_empty q) && tidy q

abbrev suits : Option (List ℕ) → MessageType → ℕ → Bool
suits none resp_mt_failure n = true
suits none _ n = false
suits (some text) resp_mt_data n = ltb 0 n && leb n resp_msg_size
suits (some text) resp_mt_end n = n == 0
suits (some text) resp_mt_failure n = false

-- Not a message that the child of this file sends.
abbrev is_stray : Option (List ℕ) → Response → Bool
is_stray file m = not (suits file m.mtype (length m.text))

abbrev place_suits : Option (List ℕ) → ClientPlace → Bool
place_suits file (judging m) = suits file m.mtype (length m.text)
place_suits none (testing t) = false
place_suits (some text) (testing resp_mt_failure) = false
place_suits none receiving = false
place_suits none served = false
place_suits (some text) refused = false
place_suits _ _ = true

abbrev child_suits : Option (List ℕ) → ChildPlace → Bool
child_suits none reading = false
child_suits none (sending chunk) = false
child_suits none ending = false
child_suits (some text) refusing = false
child_suits (some text) (sending chunk) = ltb 0 (length chunk) && leb (length chunk) resp_msg_size
child_suits _ _ = true

-- The messages with data among those that the client has counted.
abbrev data_msgs : ClientPlace → ℕ → ℕ
data_msgs (testing resp_mt_end) n = n - 1
data_msgs served n = n - 1
data_msgs _ n = n

abbrev pub got : ClientPlace → ℕ
got asking = 0
got awaiting = 0
got (judging m) = 0
got refused = 0
got failed = 0
got _ = 1

abbrev before : ClientPlace → ℕ → ℕ
before asking n = n
before awaiting n = n
before (judging m) n = n
before refused n = n
before _ n = 0

abbrev has_failed : ClientPlace → ℕ
has_failed failed = 1
has_failed _ = 0

-- `pending` is how often the client's request is in the server's hands.
pub record IsFair (faults : Bool) (pending : ℕ) (c : Client) : Type 0 where
  pub once : pending + is_asking c.place + is_forked c.child ≤ 1
  pub due : strict faults ≤ pending + is_asking c.place + is_forked c.child
  pub unspoilt : strict faults + has_failed c.place ≤ 1
  pub queued : c.has_queue ≡ not (is_over c.place)
  pub one_final : count is_final c.queue + weight (has_final c.place) + to_come c.child ≤ 1
  pub final_due :
      strict faults ≤ count is_final c.queue + weight (has_final c.place) + to_come c.child
  pub in_order : tidy c.queue ≡ true
  pub settled : (not (has_final c.place) || is_empty c.queue) ≡ true
  pub most : whole c ≤ opened c.child (file_size c.file)
  pub least : demand faults (opened c.child (file_size c.file)) ≤ whole c
  pub all_read : demand faults (missed c.child (length c.unread)) ≡ 0
  pub no_stray : count (is_stray c.file) c.queue ≡ 0
  pub place_fits : place_suits c.file c.place ≡ true
  pub child_fits : child_suits c.file c.child ≡ true
  pub bytes : c.tot_bytes ≤ resp_msg_size * data_msgs c.place c.num_msgs
  pub messages : data_msgs c.place c.num_msgs ≤ c.tot_bytes
  pub unbegun : before c.place c.tot_bytes ≡ 0
  pub begun : got c.place ≤ c.num_msgs

tidy_snoc : (q : List Response) (m : Response) → count is_final q ≡ 0 → tidy (q ++ m ∷ []) ≡ true
tidy_snoc [] m h = ground arith
tidy_snoc (n ∷ q) m h = ground (arith, tidy_snoc q m)

-- What a queue counts when a message is added.
record Posted (f : Option (List ℕ)) (q : List Response) (m : Response) : Type 0 where
  finals : count is_final (q ++ m ∷ []) ≡ count is_final q + weight (is_final m)
  bytes : total message_bytes (q ++ m ∷ []) ≡ total message_bytes q + message_bytes m
  strays : count (is_stray f) (q ++ m ∷ []) ≡ count (is_stray f) q + weight (is_stray f m)

posted : (f : Option (List ℕ)) (q : List Response) (m : Response) → Posted f q m
posted f q m = record {
  finals = count-snoc is_final q m;
  bytes = total-snoc message_bytes q m;
  strays = count-snoc (is_stray f) q m;
}

pub new_client-IsFair : (faults : Bool) (file : Option (List ℕ)) → IsFair faults 0 (new_client file)
new_client-IsFair true none = ground arith
new_client-IsFair false none = ground arith
new_client-IsFair true (some text) = ground arith
new_client-IsFair false (some text) = ground arith

module _ {faults : Bool} {room : List Response → Bool} {pending : ℕ} where
  pub ClientStep-IsFair :
      {c d : Client}
      → ClientStep faults room c d
      → IsFair faults pending c
      → IsFair faults pending d
  ClientStep-IsFair (receive_first m rest p q) h = ground arith
  ClientStep-IsFair (refuse m p q) h = ground arith
  ClientStep-IsFair (accept m p q) h = ground arith
  ClientStep-IsFair (test_more p) h = ground arith
  ClientStep-IsFair (test_end t p q) h = ground arith
  ClientStep-IsFair (receive_next m rest p q) h = ground arith
  ClientStep-IsFair (first_fails f p) h = ground arith
  ClientStep-IsFair (next_fails f p) h = ground arith

  pub ChildStep-IsFair :
      {c d : Client} → ChildStep faults room c d → IsFair faults pending c → IsFair faults pending d
  ChildStep-IsFair (open_file text p q) h = ground arith
  ChildStep-IsFair (open_fails p q) h = ground arith
  ChildStep-IsFair {c = c} (send_failure p o r) h =
      let m : Response = record { mtype = resp_mt_failure; text = couldnt_open } in
      ground (arith, posted c.file c.queue m, tidy_snoc c.queue m)
  ChildStep-IsFair (failure_unsent p o) h = ground arith
  ChildStep-IsFair (read_some chunk rest p q l b) h =
      ground (arith, ap length q, length-append chunk rest)
  ChildStep-IsFair (read_end p q) h = ground arith
  ChildStep-IsFair (read_fails f p) h = ground arith
  ChildStep-IsFair {c = c} (send_data chunk p o r) h =
      let m : Response = record { mtype = resp_mt_data; text = chunk } in
      ground (arith, posted c.file c.queue m, tidy_snoc c.queue m)
  ChildStep-IsFair (data_unsent chunk p o) h = ground arith
  ChildStep-IsFair {c = c} (send_end p o r) h =
      let m : Response = record { mtype = resp_mt_end; text = [] } in
      ground (arith, posted c.file c.queue m, tidy_snoc c.queue m)
  ChildStep-IsFair (end_unsent p o) h = ground arith
