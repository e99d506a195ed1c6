-- ===== src/Sockets/Tests.antt =====
-- A pipe that gives and takes two bytes at a time and interrupts some calls, and the routines on
-- it.
use computer_science_notes.Base.{
  ℕ, zero, suc, ◌-◌, ◌<◌, ◌≡◌, refl, some, List, [], ◌∷◌, ◌++◌, length, arith, take, false,
}
use computer_science_notes.Base.Int.{pos}
use computer_science_notes.Sockets.Reading.{
  readn_loop, readn_reply, read_line_loop, line_reply, end_line, store_char, ReadReply, got,
  interrupted, readn, read_line,
}
use computer_science_notes.Sockets.Writing.{Written, wrote, write_interrupted, writen}
use computer_science_notes.Sockets.LineBuffer.{ReadLineBuf, read_line_buf}
use computer_science_notes.Sockets.Stream.{View, IsStream, Delivers, line_of, after_line}
use computer_science_notes.Sockets.Exactly.{IsReadOf, readn_lem}
use computer_science_notes.Sockets.Whole.{SinkView, IsSink, Accepts, IsWriteOf, writen_lem}
use computer_science_notes.Sockets.Line.{IsLineOf, read_line_lem}
use computer_science_notes.Sockets.Buffered.{IsAnswerOf, read_line_buf_lem}

-- How often it interrupts before it gives or takes, how often it has, and the bytes.
abbrev Pipe : Type 0
Pipe = ℕ × ℕ × List ℕ

abbrev pipe_read : Pipe → ℕ → ReadReply × Pipe
pipe_read (suc i, d, bs) n = (interrupted, (i, suc d, bs))
pipe_read (zero, d, []) n = (got [], (0, d, []))
pipe_read (zero, d, b ∷ []) n = (got (b ∷ []), (0, d, []))
pipe_read (zero, d, b ∷ c ∷ bs) (suc (suc n)) = (got (b ∷ c ∷ []), (0, d, bs))
pipe_read (zero, d, b ∷ c ∷ bs) n = (got (b ∷ []), (0, d, c ∷ bs))

abbrev pipe_write : Pipe → List ℕ → Written × Pipe
pipe_write (suc i, d, bs) l = (write_interrupted, (i, suc d, bs))
pipe_write (zero, d, bs) [] = (wrote 0, (0, d, bs))
pipe_write (zero, d, bs) (b ∷ []) = (wrote 1, (0, d, bs ++ b ∷ []))
pipe_write (zero, d, bs) (b ∷ c ∷ l) = (wrote 2, (0, d, bs ++ b ∷ c ∷ []))

abbrev pipe_view : View Pipe
pipe_view = record {
  content = λ w. w.2;
  patience = λ w. w.0;
  failures = λ w. 0;
  interruptions = λ w. w.1;
}

abbrev pipe_sink_view : SinkView Pipe
pipe_sink_view = record { sent = λ w. w.2; patience = λ w. w.0; failures = λ w. 0 }

pipe-Delivers : (w : Pipe) (n : ℕ) → 0 < n → Delivers pipe_view w n (pipe_read w n)
pipe-Delivers (suc i, d, bs) n h = (refl, omega arith, refl, refl)
pipe-Delivers (zero, d, []) n h = (refl, refl, (refl, refl))
pipe-Delivers (zero, d, b ∷ []) n h = (refl, omega arith, omega arith, (refl, refl))
pipe-Delivers (zero, d, b ∷ c ∷ bs) zero h = absurd (omega arith)
pipe-Delivers (zero, d, b ∷ c ∷ bs) (suc zero) h = (refl, omega arith, omega arith, (refl, refl))
pipe-Delivers (zero, d, b ∷ c ∷ bs) (suc (suc n)) h = (refl, omega arith, omega arith, (refl, refl))

pipe-Accepts : (w : Pipe) (l : List ℕ) → 0 < length l → Accepts pipe_sink_view w l (pipe_write w l)
pipe-Accepts (suc i, d, bs) l h = (refl, omega arith, refl)
pipe-Accepts (zero, d, bs) [] h = absurd (omega arith)
pipe-Accepts (zero, d, bs) (b ∷ []) h = (omega arith, omega arith, refl, omega arith, refl)
pipe-Accepts (zero, d, bs) (b ∷ c ∷ l) h = (omega arith, omega arith, refl, omega arith, refl)

abbrev pipe_stream : IsStream pipe_read
pipe_stream = record { view = pipe_view; delivers = pipe-Delivers }

abbrev pipe_sink : IsSink pipe_write
pipe_sink = record { view = pipe_sink_view; accepts = pipe-Accepts }

-- Two lines, of which the second has no newline.
abbrev two_lines : Pipe
two_lines = (2, 0, 65 ∷ 66 ∷ 67 ∷ 10 ∷ 68 ∷ [])

-- One byte is left in the array.
abbrev used_buffer : ReadLineBuf
used_buffer = record { buf = 0 ∷ 70 ∷ 0 ∷ 0 ∷ []; next = 1; len = pos 2 }

readn_three :
    readn pipe_read 20 3 two_lines ≡ some (some 3, 65 ∷ 66 ∷ 67 ∷ [], (0, 2, 10 ∷ 68 ∷ []))
unfolding readn readn_loop readn_reply
readn_three = refl

cut_line :
    read_line pipe_read 20 false 3 two_lines ≡ some (some 2, 65 ∷ 66 ∷ 0 ∷ [], (0, 2, 68 ∷ []))
unfolding read_line read_line_loop line_reply end_line store_char
cut_line = refl

readn_lem_example : IsReadOf pipe_view 0 3 (two_lines.2) (readn pipe_read 20 3 two_lines)
readn_lem_example = readn_lem pipe_read pipe_stream 20 3 two_lines (omega arith)

writen_lem_example :
    IsWriteOf pipe_sink_view 0
      (7 ∷ [])
      (1 ∷ 2 ∷ 3 ∷ 4 ∷ [])
      3
      (writen pipe_write 20 (1 ∷ 2 ∷ 3 ∷ 4 ∷ []) 3 (1, 0, 7 ∷ []))
writen_lem_example =
    writen_lem pipe_write pipe_sink 20 (1 ∷ 2 ∷ 3 ∷ 4 ∷ []) 3 (1, 0, 7 ∷ []) (omega arith)
      (omega arith)

read_line_lem_example :
    IsLineOf pipe_view
      (3 - 1)
      0
      (take (3 - 1) (line_of two_lines.2))
      (after_line two_lines.2)
      (read_line pipe_read 20 false 3 two_lines)
read_line_lem_example =
    read_line_lem pipe_read pipe_stream 20 3 two_lines (omega arith) (omega arith)

read_line_buf_lem_example :
    IsAnswerOf pipe_view 3 0
      (take 3 (line_of (70 ∷ 65 ∷ 66 ∷ 67 ∷ 10 ∷ 68 ∷ [])))
      (after_line (70 ∷ 65 ∷ 66 ∷ 67 ∷ 10 ∷ 68 ∷ []))
      (read_line_buf pipe_read 20 false 3 used_buffer (0, 0, two_lines.2))
read_line_buf_lem_example =
    read_line_buf_lem pipe_read pipe_stream 20 3 used_buffer (0, 0, two_lines.2) (omega arith)
      (omega arith) (omega arith)
