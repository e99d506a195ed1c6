-- ===== src/Transfer/Invariant.antt =====
-- What holds whenever the processes of svshm_xfr_writer.c and svshm_xfr_reader.c are between two
-- steps: they take turns, and no byte is lost, doubled or moved.
use computer_science_notes.Base.{◌^◌}
use computer_science_notes.Base.{◌<◌}
use computer_science_notes.Base.{
  ℕ, ◌+◌, ◌≤◌, ◌≡◌, ◌≢◌, refl, sym, ap, ◌∙◌, Bool, true, false, List, [], ◌++◌, length,
  length-append, append_assoc, append-nil, inl, inr, ◌⊎◌, arith,
}
use computer_science_notes.Transfer.System.{
  WriterPc, to_read, to_release, to_test, to_wait, writer_done, writer_failed, ReaderPc, await,
  examine, to_write, give_back, last_turn, reader_done, reader_failed, System, start, Step,
  reserve_write, read_block, read_fails, release_read, test_more, test_end, reserve_last,
  reserve_read, examine_end, examine_more, write_block, write_fails, release_write, release_last,
  Run, begin, then_step,
}

-- Whether a process holds the turn, as a number.
abbrev pub writer_holds : WriterPc → ℕ
writer_holds to_read = 1
writer_holds to_release = 1
writer_holds writer_done = 1
writer_holds writer_failed = 1
writer_holds _ = 0

abbrev pub reader_holds : ReaderPc → ℕ
reader_holds await = 0
reader_holds reader_done = 0
reader_holds _ = 1

-- Whether the block in the buffer has still to be written out, by the writer's and the reader's place.
abbrev pub block_ready : WriterPc → ℕ
block_ready to_release = 1
block_ready _ = 0

abbrev pub block_taken : ReaderPc → ℕ
block_taken examine = 1
block_taken to_write = 1
block_taken reader_failed = 1
block_taken _ = 0

abbrev pub unwritten : System → ℕ
unwritten s = block_ready s.writer + s.read_sem + block_taken s.reader

-- Bytes in the buffer that the writer has not counted, and that the reader has counted ahead.
abbrev uncounted : WriterPc → ℕ → ℕ
uncounted to_release n = n
uncounted to_test n = n
uncounted to_wait n = n
uncounted writer_done n = n
uncounted _ n = 0

abbrev pub ahead : ReaderPc → ℕ → ℕ
ahead to_write n = n
ahead reader_failed n = n
ahead _ n = 0

-- The reader has seen the end.
abbrev pub at_end : ReaderPc → Bool
at_end last_turn = true
at_end reader_done = true
at_end _ = false

-- The reader has found a block that is not empty.
abbrev pub block_seen : ReaderPc → Bool
block_seen to_write = true
block_seen give_back = true
block_seen reader_failed = true
block_seen _ = false

-- The writer is past its last block, or about to find out.
abbrev pub may_end : WriterPc → Bool
may_end to_test = true
may_end to_wait = true
may_end writer_done = true
may_end _ = false

abbrev pub has_ended : WriterPc → Bool
has_ended to_wait = true
has_ended writer_done = true
has_ended _ = false

-- The blocks that the reader has counted the bytes of, but has not given back.
abbrev in_hand : ReaderPc → ℕ
in_hand to_write = 1
in_hand give_back = 1
in_hand reader_failed = 1
in_hand _ = 0

-- The buffer holds the block that was read last.
abbrev pub has_read : WriterPc → Bool
has_read to_release = true
has_read to_test = true
has_read to_wait = true
has_read writer_done = true
has_read _ = false

pub record IsConsistent (text : List ℕ) (s : System) : Type 0 where
  pub turns : s.write_sem + s.read_sem + writer_holds s.writer + reader_holds s.reader ≡ 1
  pub kept_full : unwritten s ≡ 1 → text ≡ s.output ++ (s.buf ++ s.input)
  pub kept_empty : unwritten s ≡ 0 → text ≡ s.output ++ s.input
  pub block_end : has_read s.writer ≡ true → s.buf ≡ [] → s.input ≡ []
  pub read_end : unwritten s ≡ 1 → s.buf ≡ [] → has_read s.writer ≡ true
  pub ended : has_ended s.writer ≡ true → s.buf ≡ []
  pub stopped : at_end s.reader ≡ true → (s.buf ≡ []) × (may_end s.writer ≡ true) × (s.read_sem ≡ 0)
  pub nonempty : block_seen s.reader ≡ true → s.buf ≢ []
  pub announced : may_end s.writer ≡ true → s.buf ≡ [] → s.reader ≡ await → s.read_sem ≡ 1
  pub counted : s.sent + uncounted s.writer (length s.buf) + length s.input ≡ length text
  pub written : s.received ≡ length s.output + ahead s.reader (length s.buf)
  pub blocks_sent : s.sent_xfrs ≤ s.sent
  pub blocks_received : s.received_xfrs + in_hand s.reader ≤ s.received

start-IsConsistent : (text : List ℕ) → IsConsistent text (start text)
start-IsConsistent text = record {
  turns = omega arith;
  kept_full = λ h. ground arith;
  kept_empty = λ h. refl;
  block_end = λ h e. ground arith;
  read_end = λ h e. ground arith;
  ended = λ h. ground arith;
  stopped = λ h. ground arith;
  nonempty = λ h. ground arith;
  announced = λ h e p. ground arith;
  counted = omega arith;
  written = omega arith;
  blocks_sent = omega arith;
  blocks_received = omega arith;
}

Step-IsConsistent :
    {buf_size : ℕ} {text : List ℕ} {s t : System}
    → Step buf_size s t
    → IsConsistent text s
    → IsConsistent text t
Step-IsConsistent (reserve_write p h) c = ground arith
Step-IsConsistent {s = s} (read_block block rest p e l n) c =
    grind (arith, length-append block rest)
Step-IsConsistent (read_fails p) c = ground arith
Step-IsConsistent (release_read p) c = ground arith
Step-IsConsistent (test_more p h) c = ground arith
Step-IsConsistent (test_end p h) c = ground arith
Step-IsConsistent (reserve_last p h) c = ground arith
Step-IsConsistent (reserve_read p h) c = ground arith
Step-IsConsistent (examine_end p h) c = ground arith
Step-IsConsistent (examine_more p h) c = ground arith
Step-IsConsistent {s = s} (write_block p) c =
    ground (arith, length-append s.output s.buf, append_assoc s.output s.buf s.input)
Step-IsConsistent (write_fails p) c = ground arith
Step-IsConsistent (release_write p) c = ground arith
Step-IsConsistent (release_last p) c = ground arith

block_ready-le : (p : WriterPc) → block_ready p ≤ writer_holds p
block_ready-le p = ground arith

block_taken-le : (p : ReaderPc) → block_taken p ≤ reader_holds p
block_taken-le p = ground arith

unwritten-cases :
    {text : List ℕ} {s : System} → IsConsistent text s → (unwritten s ≡ 0) ⊎ (unwritten s ≡ 1)
unwritten-cases {s = s} c = omega (arith, c.turns, block_ready-le s.writer, block_taken-le s.reader)

pub Run-IsConsistent :
    {buf_size : ℕ} {text : List ℕ} {k : ℕ} {s : System}
    → Run buf_size text k s
    → IsConsistent text s
Run-IsConsistent {text = text} begin = start-IsConsistent text
Run-IsConsistent (then_step r st) = Step-IsConsistent st (Run-IsConsistent r)

abbrev pub is_reading : WriterPc → ℕ
is_reading to_read = 1
is_reading _ = 0

-- The variables of the programs are ints, and hold their values.
abbrev pub HasInts : System → Type 0
HasInts s =
    (s.sent < 2 ^ 31) × (s.sent_xfrs < 2 ^ 31) × (s.received < 2 ^ 31) × (s.received_xfrs < 2 ^ 31)

ahead-block_taken :
    (p : ReaderPc) (n : ℕ) → (ahead p n ≡ 0) ⊎ ((ahead p n ≡ n) × (block_taken p ≡ 1))
ahead-block_taken p n = ground arith

received-le : {text : List ℕ} {s : System} → IsConsistent text s → s.received ≤ length text
received-le {text} {s} c = elim (unwritten-cases c) [
  | inl z ↦ omega (
    arith,
    c.written,
    ap length (c.kept_empty z),
    length-append s.output s.input,
    ahead-block_taken s.reader (length s.buf),
  )
  | inr o ↦ omega (
    arith,
    c.written,
    ap length (c.kept_full o),
    length-append s.output (s.buf ++ s.input),
    length-append s.buf s.input,
    ahead-block_taken s.reader (length s.buf),
  )
]

Run-HasInts :
    {buf_size : ℕ} {text : List ℕ} {k : ℕ} {s : System}
    → Run buf_size text k s
    → length text < 2 ^ 31
    → HasInts s
Run-HasInts r small =
    let c = Run-IsConsistent r in
    let sent = c.counted in
    let received = received-le c in
    (
      omega (arith, sent),
      omega (arith, sent, c.blocks_sent),
      omega (arith, received),
      omega (arith, received, c.blocks_received),
    )

uncounted-zero : (w : WriterPc) (n : ℕ) → n ≡ 0 → uncounted w n ≡ 0
uncounted-zero w n e = ground arith

-- On an input of less than 2^31 bytes no counter overflows, and when the reader is done, it has written exactly the input and counted its bytes, and the writer's
-- count is the same.
pub Run_delivers :
    {buf_size : ℕ} {text : List ℕ} {k : ℕ} {s : System}
    → Run buf_size text k s
    → length text < 2 ^ 31
    → s.reader ≡ reader_done
    → HasInts s × (s.output ≡ text) × (s.received ≡ length text) × (s.sent ≡ length text)
Run_delivers {text = text} {s = s} r small e =
    let c = Run-IsConsistent r in
    let empty : s.buf ≡ [] = (c.stopped (ground arith)).0 in
    let over : s.input ≡ [] = c.block_end (ground (arith, c.stopped)) empty in
    let whole : s.output ≡ text = elim (unwritten-cases c) [
      | inl z ↦ sym (c.kept_empty z ∙ ap (λ l. s.output ++ l) over ∙ append-nil s.output)
      | inr o ↦ sym (
          c.kept_full o
          ∙ ap (λ l. s.output ++ (l ++ s.input)) empty
          ∙ ap (λ l. s.output ++ l) over
          ∙ append-nil s.output)
    ] in
    (
      Run-HasInts r small,
      whole,
      c.written ∙ ground (arith, ap length whole),
      ground (
        arith,
        c.counted,
        uncounted-zero s.writer (length s.buf),
        ap length empty,
        ap length over,
      ),
    )
