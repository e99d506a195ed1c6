-- ===== src/Transfer/System.antt =====
-- The two processes of svshm_xfr_writer.c and svshm_xfr_reader.c as a step relation: a step is one
-- call or one test of the program, and either process may take the next one.
use computer_science_notes.Base.{ℕ, suc, ◌+◌, ◌-◌, ◌≤◌, ◌<◌, ◌≡◌, ◌≢◌, List, [], ◌++◌, length}

-- Where the writer stands in main().
pub data WriterPc : Type 0 where
  to_reserve : WriterPc  -- reserveSem(semid, WRITE_SEM) in the loop
  to_read : WriterPc  -- read()
  to_release : WriterPc  -- releaseSem(semid, READ_SEM)
  to_test : WriterPc  -- `if (shmp->cnt == 0) break;`, and the increments of the loop
  to_wait : WriterPc  -- the last reserveSem()
  writer_done : WriterPc
  writer_failed : WriterPc  -- errExit("read")

-- Where the reader stands in main().
pub data ReaderPc : Type 0 where
  await : ReaderPc  -- reserveSem(semid, READ_SEM)
  examine : ReaderPc  -- `if (shmp->cnt == 0) break;`
  to_write : ReaderPc  -- write()
  give_back : ReaderPc  -- releaseSem(semid, WRITE_SEM) in the loop
  last_turn : ReaderPc  -- shmdt() and the last releaseSem()
  reader_done : ReaderPc
  reader_failed : ReaderPc  -- fatal("partial/failed write")

-- The semaphores, the shared memory (the first `cnt` bytes of the buffer), what is still to be read
-- from the standard input, what has been written to the standard output, and the variables.
-- These are ints in the programs: they are these numbers as long as they stay below 2^31.
pub record System : Type 0 where
  pub write_sem : ℕ
  pub read_sem : ℕ
  pub buf : List ℕ
  pub input : List ℕ
  pub output : List ℕ
  pub writer : WriterPc
  pub sent : ℕ
  pub sent_xfrs : ℕ
  pub reader : ReaderPc
  pub received : ℕ
  pub received_xfrs : ℕ

-- Both programs before their loops, when the input is `text`.
abbrev pub start : List ℕ → System
start text = record {
  write_sem = 1;
  read_sem = 0;
  buf = [];
  input = text;
  output = [];
  writer = to_reserve;
  sent = 0;
  sent_xfrs = 0;
  reader = await;
  received = 0;
  received_xfrs = 0;
}

-- One step of one process, with a buffer of `buf_size` bytes. reserveSem() waits until it can take one
-- from its semaphore. read() gives some of the input, and no byte only at its end.
pub data Step (buf_size : ℕ) (s : System) : System → Type 0 where
  reserve_write :
      s.writer ≡ to_reserve
      → 0 < s.write_sem
      → Step buf_size s (record s { writer = to_read; write_sem = s.write_sem - 1 })
  read_block :
      (block rest : List ℕ)
      → s.writer ≡ to_read
      → s.input ≡ block ++ rest
      → length block ≤ buf_size
      → (block ≡ [] → rest ≡ [])
      → Step buf_size s (record s { writer = to_release; buf = block; input = rest })
  read_fails : s.writer ≡ to_read → Step buf_size s (record s { writer = writer_failed })
  release_read :
      s.writer ≡ to_release
      → Step buf_size s (record s { writer = to_test; read_sem = s.read_sem + 1 })
  test_more :
      s.writer ≡ to_test
      → s.buf ≢ []
      → Step buf_size s (record s {
        writer = to_reserve;
        sent = s.sent + length s.buf;
        sent_xfrs = s.sent_xfrs + 1;
      })
  test_end : s.writer ≡ to_test → s.buf ≡ [] → Step buf_size s (record s { writer = to_wait })
  reserve_last :
      s.writer ≡ to_wait
      → 0 < s.write_sem
      → Step buf_size s (record s { writer = writer_done; write_sem = s.write_sem - 1 })
  reserve_read :
      s.reader ≡ await
      → 0 < s.read_sem
      → Step buf_size s (record s { reader = examine; read_sem = s.read_sem - 1 })
  examine_end : s.reader ≡ examine → s.buf ≡ [] → Step buf_size s (record s { reader = last_turn })
  examine_more :
      s.reader ≡ examine
      → s.buf ≢ []
      → Step buf_size s (record s { reader = to_write; received = s.received + length s.buf })
  write_block :
      s.reader ≡ to_write
      → Step buf_size s (record s { reader = give_back; output = s.output ++ s.buf })
  write_fails : s.reader ≡ to_write → Step buf_size s (record s { reader = reader_failed })
  release_write :
      s.reader ≡ give_back
      → Step buf_size s (record s {
        reader = await;
        write_sem = s.write_sem + 1;
        received_xfrs = s.received_xfrs + 1;
      })
  release_last :
      s.reader ≡ last_turn
      → Step buf_size s (record s { reader = reader_done; write_sem = s.write_sem + 1 })

-- A run of `k` steps.
pub data Run (buf_size : ℕ) (text : List ℕ) : ℕ → System → Type 0 where
  begin : Run buf_size text 0 (start text)
  then_step :
      {k : ℕ} {s t : System}
      → Run buf_size text k s
      → Step buf_size s t
      → Run buf_size text (suc k) t
