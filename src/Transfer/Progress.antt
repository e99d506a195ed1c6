-- ===== src/Transfer/Progress.antt =====
-- The processes of svshm_xfr_writer.c and svshm_xfr_reader.c neither wait for one another for ever
-- nor run for ever.
use computer_science_notes.Base.{
  ℕ, ◌+◌, ◌*◌, ◌≤◌, ◌<◌, ◌≡◌, ◌≢◌, ◌⊎◌, inl, inr, refl, ap, Bool, true, false, List, [], ◌∷◌,
  length, length-append, arith,
}
use native.Mathlib.Decide.{dec_lt}
use computer_science_notes.Transfer.System.{
  WriterPc, to_reserve, to_read, to_release, to_test, to_wait, writer_done, writer_failed, ReaderPc,
  await, examine, to_write, give_back, last_turn, reader_done, reader_failed, System, Step,
  reserve_write, read_block, read_fails, release_read, test_more, test_end, reserve_last,
  reserve_read, examine_end, examine_more, write_block, write_fails, release_write, release_last,
  Run, begin, then_step,
}
use computer_science_notes.Transfer.Invariant.{
  writer_holds, reader_holds, block_ready, IsConsistent, Run-IsConsistent,
}

-- The steps that the writer has still to make of the round it is in, and of the last one.
abbrev writer_steps : WriterPc → List ℕ → ℕ
writer_steps to_reserve buf = 10
writer_steps to_read buf = 9
writer_steps to_release [] = 3
writer_steps to_release (b ∷ bs) = 12
writer_steps to_test [] = 2
writer_steps to_test (b ∷ bs) = 11
writer_steps to_wait buf = 1
writer_steps writer_done buf = 0
writer_steps writer_failed buf = 0

-- And the reader, which has a round to make where a block is ready.
abbrev reader_steps : ReaderPc → ℕ → ℕ
reader_steps await ready = 4 * ready
reader_steps examine ready = 3
reader_steps to_write ready = 2
reader_steps give_back ready = 1
reader_steps last_turn ready = 1
reader_steps reader_done ready = 0
reader_steps reader_failed ready = 0

abbrev steps_left : System → ℕ
steps_left s =
    9 * length s.input
    + writer_steps s.writer s.buf
    + reader_steps s.reader (block_ready s.writer + s.read_sem)

Step-decreases :
    {buf_size : ℕ} {text : List ℕ} {s t : System}
    → Step buf_size s t
    → IsConsistent text s
    → steps_left t < steps_left s
Step-decreases (reserve_write p h) c = ground arith
Step-decreases {s = s} (read_block [] rest p e l n) c =
    ground (arith, ap length e, ap length (n refl))
Step-decreases {s = s} (read_block (b ∷ bs) rest p e l n) c =
    ground (arith, ap length e, length-append bs rest)
Step-decreases (read_fails p) c = ground arith
Step-decreases (release_read p) c = ground arith
Step-decreases (test_more p h) c = ground arith
Step-decreases (test_end p h) c = ground arith
Step-decreases (reserve_last p h) c = ground arith
Step-decreases (reserve_read p h) c = ground arith
Step-decreases (examine_end p h) c = ground arith
Step-decreases (examine_more p h) c = ground arith
Step-decreases (write_block p) c = ground arith
Step-decreases (write_fails p) c = ground arith
Step-decreases (release_write p) c = ground arith
Step-decreases (release_last p) c = ground arith

-- No run takes more than nine steps for each byte of the input and ten more.
pub Run_bounded :
    {buf_size : ℕ} {text : List ℕ} {k : ℕ} {s : System}
    → Run buf_size text k s
    → k ≤ 9 * length text + 10
Run_bounded r = omega (arith, go r)
  where
    go :
        {buf_size : ℕ} {text : List ℕ} {k : ℕ} {s : System}
        → Run buf_size text k s
        → k + steps_left s ≤ 9 * length text + 10
    go begin = omega arith
    go (then_step r st) = omega (arith, go r, Step-decreases st (Run-IsConsistent r))

-- A step in which a call of the system fails.
abbrev pub fails : {buf_size : ℕ} {s t : System} → Step buf_size s t → Bool
fails (read_fails _) = true
fails (write_fails _) = true
fails _ = false

-- Some process can take a step in which no call fails.
abbrev pub CanGoOn : ℕ → System → Type 0
CanGoOn buf_size s = (t : System) × (st : Step buf_size s t) × (fails st ≡ false)

can_read :
    (buf_size : ℕ) (s : System) (input : List ℕ)
    → 0 < buf_size
    → s.writer ≡ to_read
    → s.input ≡ input
    → CanGoOn buf_size s
can_read buf_size s [] z e i = (_, read_block [] [] e i (omega arith) (λ h. refl), refl)
can_read buf_size s (b ∷ bs) z e i =
    (_, read_block (b ∷ []) bs e i (omega arith) (λ h. ground arith), refl)

can_test :
    (buf_size : ℕ) (s : System) (buf : List ℕ)
    → s.writer ≡ to_test
    → s.buf ≡ buf
    → CanGoOn buf_size s
can_test buf_size s [] e b = (_, test_end e b, refl)
can_test buf_size s (x ∷ xs) e b = (_, test_more e (λ h. ground arith), refl)

can_examine :
    (buf_size : ℕ) (s : System) (buf : List ℕ)
    → s.reader ≡ examine
    → s.buf ≡ buf
    → CanGoOn buf_size s
can_examine buf_size s [] e b = (_, examine_end e b, refl)
can_examine buf_size s (x ∷ xs) e b = (_, examine_more e (λ h. ground arith), refl)

-- The reader can go on where it has the turn or may take it.
reader_can :
    (buf_size : ℕ) (s : System) (p : ReaderPc)
    → s.reader ≡ p
    → p ≢ reader_failed
    → 0 < s.read_sem + reader_holds p
    → (p ≡ reader_done → s.read_sem ≡ 0)
    → CanGoOn buf_size s
reader_can buf_size s await e f h d = (_, reserve_read e (ground arith), refl)
reader_can buf_size s examine e f h d = can_examine buf_size s s.buf e refl
reader_can buf_size s to_write e f h d = (_, write_block e, refl)
reader_can buf_size s give_back e f h d = (_, release_write e, refl)
reader_can buf_size s last_turn e f h d = (_, release_last e, refl)
reader_can buf_size s reader_done e f h d = absurd (omega (arith, d refl))
reader_can buf_size s reader_failed e f h d = absurd (f refl)

-- The turn that the writer waits for is the writer's or the reader's.
waiting :
    (buf_size : ℕ) {text : List ℕ} (s : System)
    → IsConsistent text s
    → s.reader ≢ reader_failed
    → writer_holds s.writer ≡ 0
    → (0 < s.write_sem → CanGoOn buf_size s)
    → CanGoOn buf_size s
waiting buf_size s c f h go = elim (dec_lt 0 s.write_sem) [
  | yes free ↦ go free
  | no taken ↦
      reader_can buf_size s s.reader refl f (omega (arith, c.turns))
        (λ e. ground (arith, c.stopped))
]

both_done :
    (buf_size : ℕ) {text : List ℕ} (s : System) (p : ReaderPc)
    → IsConsistent text s
    → s.writer ≡ writer_done
    → s.reader ≡ p
    → p ≢ reader_failed
    → s.reader ≡ reader_done
both_done buf_size s reader_done c e r f = r
both_done buf_size s reader_failed c e r f = absurd (f refl)
both_done buf_size s await c e r f = absurd (ground (arith, c.turns, c.ended, c.announced))
both_done buf_size s examine c e r f = absurd (ground (arith, c.turns))
both_done buf_size s to_write c e r f = absurd (ground (arith, c.turns))
both_done buf_size s give_back c e r f = absurd (ground (arith, c.turns))
both_done buf_size s last_turn c e r f = absurd (ground (arith, c.turns))

-- No deadlock: in every state of every run in which no process has failed, both are done, or one of
-- them can take a step in which no call fails, with a buffer of at least one byte.
pub Run_no_deadlock :
    {buf_size : ℕ} {text : List ℕ} {k : ℕ} {s : System}
    → 0 < buf_size
    → Run buf_size text k s
    → s.writer ≢ writer_failed
    → s.reader ≢ reader_failed
    → ((s.writer ≡ writer_done) × (s.reader ≡ reader_done)) ⊎ CanGoOn buf_size s
Run_no_deadlock {buf_size} {s = s} z r fw fr = go s.writer refl
  where
    go :
        (p : WriterPc)
        → s.writer ≡ p
        → ((s.writer ≡ writer_done) × (s.reader ≡ reader_done)) ⊎ CanGoOn buf_size s
    go to_reserve e = inr (
        waiting buf_size s (Run-IsConsistent r) fr (ground arith)
          (λ h. (_, reserve_write e h, refl)))
    go to_read e = inr (can_read buf_size s s.input z e refl)
    go to_release e = inr (_, release_read e, refl)
    go to_test e = inr (can_test buf_size s s.buf e refl)
    go to_wait e = inr (
        waiting buf_size s (Run-IsConsistent r) fr (ground arith)
          (λ h. (_, reserve_last e h, refl)))
    go writer_done e = inl (e, both_done buf_size s s.reader (Run-IsConsistent r) e refl fr)
    go writer_failed e = absurd (fw e)
