-- ===== src/Messages/Serving.antt =====
-- svmsg_file_server.c with any number of clients of svmsg_file_client.c, as a step relation: a step
-- is one system call with the assignments up to the next one, of the server, of a child that it has
-- forked, or of a client.
use computer_science_notes.Base.{
  ℕ, ◌+◌, ◌≤◌, ◌<◌, ◌≡◌, ◌≢◌, ◌⊎◌, Bool, true, false, ◌||◌, not, Option, none, some, List, [], ◌∷◌,
  ◌++◌, map, length, get_elem?, set,
}

pub data MessageType : Type 0 where
  resp_mt_failure : MessageType
  resp_mt_data : MessageType
  resp_mt_end : MessageType

-- struct responseMsg, with as many bytes of `data` as msgsnd() is told to send.
pub record Response : Type 0 where
  pub mtype : MessageType
  pub text : List ℕ

-- "Couldn't open", with its NUL.
abbrev pub couldnt_open : List ℕ
couldnt_open =
    b'C' ∷ b'o' ∷ b'u' ∷ b'l' ∷ b'd' ∷ b'n' ∷ 39 ∷ b't' ∷ 32 ∷ b'o' ∷ b'p' ∷ b'e' ∷ b'n' ∷ 0 ∷ []

abbrev pub resp_msg_size : ℕ
resp_msg_size = 8192

-- Where the child of the server stands in serveRequest().
pub data ChildPlace : Type 0 where
  unforked : ChildPlace
  opening : ChildPlace
  refusing : ChildPlace  -- to send RESP_MT_FAILURE
  reading : ChildPlace
  sending : List ℕ → ChildPlace  -- to send these bytes
  ending : ChildPlace  -- to send RESP_MT_END
  child_exited : ChildPlace

-- Where the client stands in main().
pub data ClientPlace : Type 0 where
  asking : ClientPlace  -- to send the request
  awaiting : ClientPlace  -- in msgrcv() for the first response
  judging : Response → ClientPlace  -- `if (resp.mtype == RESP_MT_FAILURE)`
  testing : MessageType → ClientPlace  -- `resp.mtype == RESP_MT_DATA`
  receiving : ClientPlace  -- in msgrcv() for another
  served : ClientPlace  -- it has printed the totals
  refused : ClientPlace  -- it has printed the text of the failure
  failed : ClientPlace  -- errExit()

-- A client, its queue, and the child that serves it. `file` is what open() finds under its pathname.
pub record Client : Type 0 where
  pub file : Option (List ℕ)
  pub unread : List ℕ
  pub child : ChildPlace
  pub has_queue : Bool
  pub queue : List Response
  pub place : ClientPlace
  pub tot_bytes : ℕ
  pub num_msgs : ℕ

abbrev pub new_client : Option (List ℕ) → Client
new_client file = record {
  file = file;
  unread = [];
  child = unforked;
  has_queue = true;
  queue = [];
  place = asking;
  tot_bytes = 0;
  num_msgs = 0;
}

-- A client that exits removes its queue.
abbrev pub leave : ClientPlace → Client → Client
leave p c = record c { place = p; has_queue = false; queue = [] }

abbrev post : MessageType → List ℕ → Client → Client
post t text c = record c { queue = c.queue ++ record { mtype = t; text = text } ∷ [] }

-- What the kernel decides: whether calls fail for a reason of their own, and whether a queue has room
-- for one more message.
module _ (faults : Bool) (room : List Response → Bool) where
  pub data ClientStep (c : Client) : Client → Type 0 where
    receive_first :
        (m : Response) (rest : List Response)
        → c.place ≡ awaiting
        → c.queue ≡ m ∷ rest
        → ClientStep c (record c { queue = rest; place = judging m })
    refuse :
        (m : Response)
        → c.place ≡ judging m
        → m.mtype ≡ resp_mt_failure
        → ClientStep c (leave refused c)
    accept :
        (m : Response)
        → c.place ≡ judging m
        → m.mtype ≢ resp_mt_failure
        → ClientStep c
            (record c { place = testing m.mtype; tot_bytes = length m.text; num_msgs = 1 })
    test_more : c.place ≡ testing resp_mt_data → ClientStep c (record c { place = receiving })
    test_end :
        (t : MessageType) → c.place ≡ testing t → t ≢ resp_mt_data → ClientStep c (leave served c)
    receive_next :
        (m : Response) (rest : List Response)
        → c.place ≡ receiving
        → c.queue ≡ m ∷ rest
        → ClientStep c (record c {
          queue = rest;
          place = testing m.mtype;
          tot_bytes = c.tot_bytes + length m.text;
          num_msgs = c.num_msgs + 1;
        })
    first_fails : faults ≡ true → c.place ≡ awaiting → ClientStep c (leave failed c)
    next_fails : faults ≡ true → c.place ≡ receiving → ClientStep c (leave failed c)

  pub data ChildStep (c : Client) : Client → Type 0 where
    open_file :
        (text : List ℕ)
        → c.child ≡ opening
        → c.file ≡ some text
        → ChildStep c (record c { child = reading; unread = text })
    open_fails : c.child ≡ opening → c.file ≡ none → ChildStep c (record c { child = refusing })
    send_failure :
        c.child ≡ refusing
        → c.has_queue ≡ true
        → room c.queue ≡ true
        → ChildStep c (record (post resp_mt_failure couldnt_open c) { child = child_exited })
    failure_unsent :
        c.child ≡ refusing
        → (faults || not c.has_queue) ≡ true
        → ChildStep c (record c { child = child_exited })
    read_some :
        (chunk rest : List ℕ)
        → c.child ≡ reading
        → c.unread ≡ chunk ++ rest
        → 0 < length chunk
        → length chunk ≤ resp_msg_size
        → ChildStep c (record c { child = sending chunk; unread = rest })
    read_end : c.child ≡ reading → c.unread ≡ [] → ChildStep c (record c { child = ending })
    read_fails : faults ≡ true → c.child ≡ reading → ChildStep c (record c { child = ending })
    send_data :
        (chunk : List ℕ)
        → c.child ≡ sending chunk
        → c.has_queue ≡ true
        → room c.queue ≡ true
        → ChildStep c (record (post resp_mt_data chunk c) { child = reading })
    data_unsent :
        (chunk : List ℕ)
        → c.child ≡ sending chunk
        → (faults || not c.has_queue) ≡ true
        → ChildStep c (record c { child = ending })
    send_end :
        c.child ≡ ending
        → c.has_queue ≡ true
        → room c.queue ≡ true
        → ChildStep c (record (post resp_mt_end [] c) { child = child_exited })
    end_unsent :
        c.child ≡ ending
        → (faults || not c.has_queue) ≡ true
        → ChildStep c (record c { child = child_exited })

-- Where the server stands in main().
pub data ServerPlace : Type 0 where
  listening : ServerPlace  -- in msgrcv()
  forking : ℕ → ServerPlace  -- in fork(), for this client
  closing : ServerPlace  -- to remove its queue
  gone : ServerPlace

-- `requests` is the server's queue: the clients that have asked.
pub record Service : Type 0 where
  pub clients : List Client
  pub requests : List ℕ
  pub server : ServerPlace

abbrev pub launched : List (Option (List ℕ)) → Service
launched files = record { clients = map new_client files; requests = []; server = listening }

module _ (faults : Bool) (room : List Response → Bool) where
  pub data ServerStep (s : Service) : Service → Type 0 where
    ask :
        (i : ℕ) (c : Client)
        → get_elem? s.clients i ≡ some c
        → c.place ≡ asking
        → s.server ≢ gone
        → ServerStep s (record s {
          clients = set s.clients i (record c { place = awaiting });
          requests = s.requests ++ i ∷ [];
        })
    ask_fails :
        (i : ℕ) (c : Client)
        → get_elem? s.clients i ≡ some c
        → c.place ≡ asking
        → (faults ≡ true) ⊎ (s.server ≡ gone)
        → ServerStep s (record s { clients = set s.clients i (leave failed c) })
    take_request :
        (i : ℕ) (rest : List ℕ)
        → s.server ≡ listening
        → s.requests ≡ i ∷ rest
        → ServerStep s (record s { server = forking i; requests = rest })
    interrupted : s.server ≡ listening → ServerStep s s
    take_fails : faults ≡ true → s.server ≡ listening → ServerStep s (record s { server = closing })
    fork :
        (i : ℕ) (c : Client)
        → s.server ≡ forking i
        → get_elem? s.clients i ≡ some c
        → ServerStep s (record s {
          clients = set s.clients i (record c { child = opening });
          server = listening;
        })
    fork_fails :
        (i : ℕ)
        → faults ≡ true
        → s.server ≡ forking i
        → ServerStep s (record s { server = closing })
    remove_queue : s.server ≡ closing → ServerStep s (record s { server = gone; requests = [] })
    client_step :
        (i : ℕ) (c d : Client)
        → get_elem? s.clients i ≡ some c
        → ClientStep faults room c d
        → ServerStep s (record s { clients = set s.clients i d })
    child_step :
        (i : ℕ) (c d : Client)
        → get_elem? s.clients i ≡ some c
        → ChildStep faults room c d
        → ServerStep s (record s { clients = set s.clients i d })

  -- The states that the server and clients that ask for these files can be in.
  pub data Reach (files : List (Option (List ℕ))) : Service → Type 0 where
    begin : Reach files (launched files)
    later : {s t : Service} → Reach files s → ServerStep s t → Reach files t
