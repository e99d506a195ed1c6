-- ===== src/Messages/Delivered.antt =====
-- Every client of svmsg_file_server.c is told of its own file.
use computer_science_notes.Base.{
  ℕ, ◌+◌, ◌-◌, ◌*◌, ◌≤◌, ◌≡◌, Bool, true, false, Option, none, some, List, length, get_elem?, arith,
}
use computer_science_notes.Messages.Serving.{
  Response, resp_msg_size, served, refused, Client, Service, Reach,
}
use computer_science_notes.Messages.Fair.{is_over, IsFair}
use computer_science_notes.Messages.Shared.{Reach-IsSound}

-- What a client has to print about its file: the number of its bytes, with a message for the end and
-- one for each piece of at most resp_msg_size bytes, none of them empty; or the failure.
abbrev pub Told : Option (List ℕ) → Client → Type 0
Told none c = c.place ≡ refused
Told (some text) c =
    (c.place ≡ served)
    × (c.tot_bytes ≡ length text)
    × (c.tot_bytes ≤ resp_msg_size * (c.num_msgs - 1))
    × (c.num_msgs ≤ c.tot_bytes + 1)

IsFair-Told :
    {n : ℕ} {c : Client} (f : Option (List ℕ))
    → IsFair false n c
    → c.file ≡ f
    → is_over c.place ≡ true
    → Told f c
IsFair-Told none h e o = ground arith
IsFair-Told (some text) h e o = ground arith

-- Where no call fails, each client that has exited is told of the file that it asked for, whatever
-- the other clients do: that it cannot be opened; or how many bytes it has, in one message for the
-- end, at most one for each byte, and enough to hold resp_msg_size bytes in each.
pub over-Told :
    {room : List Response → Bool} {files : List (Option (List ℕ))} {s : Service} (j : ℕ)
    (c : Client) (f : Option (List ℕ))
    → Reach false room files s
    → get_elem? s.clients j ≡ some c
    → get_elem? files j ≡ some f
    → is_over c.place ≡ true
    → Told f c
over-Told j c f r at own o =
    let h = Reach-IsSound r in
    let same : c.file ≡ f = ground (arith, h.own j c at) in IsFair-Told f (h.fair j c at) same o

-- Whatever fails, no client counts more bytes than its file has.
pub tot_bytes-le :
    {faults : Bool} {room : List Response → Bool} {files : List (Option (List ℕ))} {s : Service}
    (j : ℕ) (c : Client) (text : List ℕ)
    → Reach faults room files s
    → get_elem? s.clients j ≡ some c
    → get_elem? files j ≡ some (some text)
    → c.tot_bytes ≤ length text
tot_bytes-le j c text r at own =
    let h = Reach-IsSound r in
    let same : c.file ≡ some text = ground (arith, h.own j c at) in ground (arith, h.fair j c at)
