-- ===== src/Bbcp/Endless.antt =====
-- bbcp.c where the target is the source: it never ends.
use computer_science_notes.Base.{
  ℕ, zero, suc, ◌<◌, ◌≡◌, ◌≢◌, refl, ap, true, Option, none, some, List, [], ◌∷◌, ◌++◌, take,
  take_of_length-le, length, length-append, ◌==◌, arith,
}
use computer_science_notes.Bbcp.Main.{
  Calls, FileName, CopyEnd, exit_success, exit_failure, running, opened, open_both, copy_loop,
  buf_size, run_opened, bbcp, check_read, check_written, close_all,
}
use computer_science_notes.Bbcp.Laws.{ReadAnswer, appended, IsFiles}

abbrev pub IsRunning : {World : Type 0} → CopyEnd World → Type 0
IsRunning {World} e = (w : World) × (e ≡ running w)

-- No call fails, and write() writes all that it is given.
pub record NeverFails {World : Type 0} (k : Calls World) (source target : ℕ) : Type 0 where
  pub reads : (n : ℕ) (w : World) → (k.read source n w).0 ≢ none
  pub writes : (bytes : List ℕ) (w : World) → (k.write target bytes w).0 ≡ some (length bytes)

module _ {World : Type 0} {k : Calls World} {source target : ℕ}
    (files : IsFiles k source target true) (never : NeverFails k source target) where
  open files use {unread, content, read_answer, write_same}

  write_again :
      (again : World → CopyEnd World) (bytes : List ℕ)
      → 0 < length bytes
      → ((w' : World) → 0 < length (unread w') → IsRunning (again w'))
      → (old : List ℕ) (r : Option ℕ × World) → r.0 ≡ some (length bytes)
      → unread r.1 ≡ old ++ appended bytes r.0
      → IsRunning (check_written k (length bytes) r again)
  unfolding check_written
  write_again again bytes l ih old (none, w') e u = absurd (ground arith)
  write_again again bytes l ih old (some m, w') e u =
      let full : m ≡ length bytes = ground arith in
      let test : (m == length bytes) ≡ true = ground arith in
      let all : take m bytes ≡ bytes = take_of_length-le m bytes (ground arith) in
      rw (test, check_written)
        (ih w' (omega (arith, ap length u, ap length all, length-append old (take m bytes))))

  read_again :
      (again : World → CopyEnd World) (w : World)
      → 0 < length (unread w)
      → ((w' : World) → 0 < length (unread w') → IsRunning (again w'))
      → (r : Option (List ℕ) × World) → r.0 ≢ none
      → ReadAnswer buf_size (unread w) (unread r.1) r.0
      → IsRunning (check_read k target r again)
  unfolding check_read
  read_again again w l ih (none, w') n a = absurd (n refl)
  read_again again w l ih (some [], w') n a = absurd (omega (arith, ap length a.0))
  read_again again w l ih (some (b ∷ bs), w') n a =
      write_again again (b ∷ bs) (omega arith) ih (unread w') (k.write target (b ∷ bs) w')
        (never.writes (b ∷ bs) w') (write_same (b ∷ bs) w' refl)

  copy_loop-IsRunning :
      (fuel : ℕ) (w : World) → 0 < length (unread w) → IsRunning (copy_loop k fuel source target w)
  unfolding copy_loop
  copy_loop-IsRunning zero w h = (w, refl)
  copy_loop-IsRunning (suc fuel) w h =
      read_again (λ w'. copy_loop k fuel source target w') w h
        (λ w' l. copy_loop-IsRunning fuel w' l) (k.read source buf_size w) (never.reads buf_size w)
        (read_answer buf_size w (omega arith))

  close_all-IsRunning :
      (dp : Option ℕ) (e : CopyEnd World) → IsRunning e → IsRunning (close_all k source target dp e)
  unfolding close_all
  close_all-IsRunning dp (exit_success w) (v, p) = cc
  close_all-IsRunning dp (exit_failure w) (v, p) = (v, p)
  close_all-IsRunning dp (running w) (v, p) = (v, p)

-- Where the two names are of one file that is not empty, and no call fails, bbcp is still running
-- after any number of rounds: it reads what it has appended.
pub bbcp-IsRunning :
    {World : Type 0} (k : Calls World) (fuel : ℕ) (from to : FileName) (w v : World)
    (source target : ℕ) (dp : Option ℕ) (files : IsFiles k source target true)
    → NeverFails k source target
    → open_both k from to w ≡ opened source target dp v
    → 0 < length (files.unread v)
    → IsRunning (bbcp k fuel from to w)
unfolding bbcp run_opened
bbcp-IsRunning k fuel from to w v source target dp files never e h = rw e (
    close_all-IsRunning files never dp (copy_loop k fuel source target v)
      (copy_loop-IsRunning files never fuel v h))
