-- ===== src/Seqnum/Tests.antt =====
-- Two clients of is_seqnum_sv.c that send 3 and 2, over a read() that gives one byte.
use computer_science_notes.Base.{
  ℕ, ◌+◌, ◌-◌, ◌%◌, ◌^◌, ◌≡◌, ◌≢◌, ◌<◌, refl, some, List, [], ◌∷◌, length, arith,
}
use computer_science_notes.Base.Int.{ℤ, pos, negsuc}
use computer_science_notes.Sockets.Reading.{
  ReadReply, got, read_line, read_line_loop, line_reply, end_line, store_char,
}
use computer_science_notes.Sockets.Stream.{View, IsStream, Delivers}
use computer_science_notes.Seqnum.Server.{
  Calls, Grant, serve, serve_accepted, serve_client, answer, grant,
}
use computer_science_notes.Seqnum.Distinct.{serve_distinct}

abbrev digit : List ℕ → ℤ
digit [] = pos 0
digit (b ∷ bs) = pos (b - 48)

abbrev show_digit : ℤ → List ℕ
show_digit (pos n) = (48 + n) ∷ []
show_digit (negsuc n) = 45 ∷ []

abbrev give_byte : List ℕ → ℕ → ReadReply × List ℕ
give_byte [] n = (got [], [])
give_byte (b ∷ bs) n = (got (b ∷ []), bs)

abbrev queue_calls : Calls (List ℕ)
queue_calls = record {
  accept = λ w. (some 4, w);
  read = λ fd w n. give_byte w n;
  write = λ fd bytes w. (some (length bytes), w);
  close = λ fd w. w;
  atoi = digit;
  print_int = show_digit;
}

abbrev byte_view : View (List ℕ)
byte_view = record {
  content = λ v. v;
  patience = λ v. 0;
  failures = λ v. 0;
  interruptions = λ v. 0;
}

give_byte-Delivers : (w : List ℕ) (n : ℕ) → 0 < n → Delivers byte_view w n (give_byte w n)
give_byte-Delivers [] n h = (refl, refl, (refl, refl))
give_byte-Delivers (b ∷ bs) n h = (refl, h, omega arith, (refl, refl))

abbrev byte_stream : IsStream give_byte
byte_stream = record { view = byte_view; delivers = give_byte-Delivers }

abbrev three_and_two : List ℕ
three_and_two = 51 ∷ 10 ∷ 50 ∷ 10 ∷ []

abbrev first_grant : Grant
first_grant = record { start = 0; size = 3 }

abbrev second_grant : Grant
second_grant = record { start = 3; size = 2 }

serve_test : serve queue_calls 2 9 0 three_and_two ≡ some (first_grant ∷ second_grant ∷ [], 5, [])
unfolding serve serve_accepted serve_client answer grant read_line read_line_loop line_reply
    end_line store_char
serve_test = refl

serve_distinct_example : (first_grant.start + 2) % 2 ^ 32 ≢ (second_grant.start + 1) % 2 ^ 32
unfolding serve serve_accepted serve_client answer grant read_line read_line_loop line_reply
    end_line store_char
serve_distinct_example =
    serve_distinct queue_calls 2 9 0 5 three_and_two [] (first_grant ∷ second_grant ∷ []) 0 1 2 1
      first_grant second_grant (omega arith) refl (omega arith) refl refl (omega arith)
      (omega arith) (omega arith)
