-- ===== src/Bbcp/Copied.antt =====
-- bbcp.c copies the source behind what the target holds, if they are two files.
use computer_science_notes.Base.{
  ℕ, zero, suc, ◌<◌, ◌≡◌, refl, sym, ap, ◌∙◌, false, Bool-cases, inl, inr, Option, none, some, List,
  [], ◌∷◌, ◌++◌, take, drop, take_of_length-le, length, length-append, append_assoc, append-nil,
  ◌==◌, arith,
}
use computer_science_notes.Bbcp.Main.{
  Calls, FileName, CopyEnd, exit_success, exit_failure, running, opened, open_both, copy_loop,
  buf_size, run_opened, bbcp, check_read, check_written, close_all,
}
use computer_science_notes.Bbcp.Laws.{ReadAnswer, appended, IsFiles}

-- On success the whole source stands behind the old content; on failure, a part of it from its start.
abbrev pub CopyResult :
    {World : Type 0} → (World → List ℕ) → List ℕ → List ℕ → CopyEnd World → Type 0
CopyResult content old text (exit_success w) = content w ≡ old ++ text
CopyResult content old text (exit_failure w) =
    (part : List ℕ) × (rest : List ℕ) × (text ≡ part ++ rest) × (content w ≡ old ++ part)
CopyResult content old text (running w) = ⊥

module _ {World : Type 0} (content : World → List ℕ) where
  -- What is copied after `bytes` is copied after what stood before them.
  CopyResult-shift :
      (old bytes rest text : List ℕ) (e : CopyEnd World)
      → text ≡ bytes ++ rest
      → CopyResult content (old ++ bytes) rest e
      → CopyResult content old text e
  CopyResult-shift old bytes rest text (exit_success w) t h =
      h ∙ append_assoc old bytes rest ∙ ap (λ l. old ++ l) (sym t)
  CopyResult-shift old bytes rest text (exit_failure w) t (part, tail, e, h) = (
    bytes ++ part,
    tail,
    t ∙ ap (λ l. bytes ++ l) e ∙ sym (append_assoc bytes part tail),
    h ∙ append_assoc old bytes part,
  )
  CopyResult-shift old bytes rest text (running w) t h = h

take-drop : (m : ℕ) (l : List ℕ) → l ≡ take m l ++ drop m l
take-drop zero l = refl
take-drop (suc m) [] = refl
take-drop (suc m) (x ∷ l) = ap (λ r. x ∷ r) (take-drop m l)

module _ {World : Type 0} {k : Calls World} {source target : ℕ}
    (files : IsFiles k source target false) where
  open files use {unread, content, read_answer, read_keeps, write_appends, write_apart}

  write_step :
      (again : World → CopyEnd World) (old text bytes : List ℕ) (w : World)
      → text ≡ bytes ++ unread w
      → content w ≡ old
      → ((w' : World)
          → unread w' ≡ unread w
          → content w' ≡ old ++ bytes
          → CopyResult content (old ++ bytes) (unread w) (again w'))
      → (r : Option ℕ × World) → content r.1 ≡ content w ++ appended bytes r.0
      → unread r.1 ≡ unread w
      → CopyResult content old text (check_written k (length bytes) r again)
  unfolding check_written
  write_step again old text bytes w t c ih (none, w') e u =
      ([], text, refl, e ∙ ap (λ l. l ++ []) c)
  write_step again old text bytes w t c ih (some m, w') e u =
      elim (Bool-cases (m == length bytes)) [
        | inl q ↦
            let all : take m bytes ≡ bytes = take_of_length-le m bytes (ground arith) in
            rw (q, check_written)
              (CopyResult-shift content old bytes (unread w) text (again w') t
                (ih w' u (e ∙ ap (λ l. l ++ take m bytes) c ∙ ap (λ l. old ++ l) all)))
        | inr q ↦
            rw (q, check_written)
              (
                take m bytes,
                drop m bytes ++ unread w,
                t
                    ∙ ap (λ l. l ++ unread w) (take-drop m bytes)
                    ∙ append_assoc (take m bytes) (drop m bytes) (unread w),
                e ∙ ap (λ l. l ++ take m bytes) c,
              )
      ]

  read_step :
      (again : World → CopyEnd World) (old : List ℕ) (w : World)
      → content w ≡ old
      → ((w' : World) (l : List ℕ)
          → length (unread w') < length (unread w)
          → content w' ≡ l
          → CopyResult content l (unread w') (again w'))
      → (r : Option (List ℕ) × World) → ReadAnswer buf_size (unread w) (unread r.1) r.0
      → content r.1 ≡ content w
      → CopyResult content old (unread w) (check_read k target r again)
  unfolding check_read
  read_step again old w c ih (none, w') a e = ([], unread w, refl, e ∙ c ∙ sym (append-nil old))
  read_step again old w c ih (some [], w') a e =
      e ∙ c ∙ sym (append-nil old) ∙ ap (λ l. old ++ l) (sym a.0)
  read_step again old w c ih (some (b ∷ bs), w') a e =
      write_step again old (unread w) (b ∷ bs) w' a.0 (e ∙ c)
        (λ v u d. rw (← u) (
          ih v (old ++ b ∷ bs)
            (omega (arith, ap length u, ap length a.0, length-append bs (unread w'))) d))
        (k.write target (b ∷ bs) w') (write_appends (b ∷ bs) w') (write_apart (b ∷ bs) w' refl)

  copy_loop_lem :
      (fuel : ℕ) (old : List ℕ) (w : World)
      → length (unread w) < fuel
      → content w ≡ old
      → CopyResult content old (unread w) (copy_loop k fuel source target w)
  unfolding copy_loop
  copy_loop_lem zero old w h c = absurd (omega arith)
  copy_loop_lem (suc fuel) old w h c =
      read_step (λ w'. copy_loop k fuel source target w') old w c
        (λ w' l q d. copy_loop_lem fuel l w' (omega arith) d) (k.read source buf_size w)
        (read_answer buf_size w (omega arith)) (read_keeps buf_size w)

  close_all_lem :
      (old text : List ℕ) (dp : Option ℕ) (e : CopyEnd World)
      → CopyResult content old text e
      → CopyResult content old text (close_all k source target dp e)
  unfolding close_all
  close_all_lem old text dp (exit_success w) h =
      files.closedir_keeps dp (k.close target (k.close source w))
      ∙ files.close_keeps target (k.close source w)
      ∙ files.close_keeps source w
      ∙ h
  close_all_lem old text dp (exit_failure w) h = h
  close_all_lem old text dp (running w) h = h

-- Once both files are open and are not the same, bbcp ends within a round for each byte of the source
-- and one more: with success, and the whole source behind what the target held; or with failure, and
-- a part of the source from its start there.
pub bbcp_lem :
    {World : Type 0} (k : Calls World) (fuel : ℕ) (from to : FileName) (w v : World)
    (source target : ℕ) (dp : Option ℕ) (files : IsFiles k source target false)
    → open_both k from to w ≡ opened source target dp v
    → length (files.unread v) < fuel
    → CopyResult files.content (files.content v) (files.unread v) (bbcp k fuel from to w)
unfolding bbcp run_opened
bbcp_lem k fuel from to w v source target dp files e h = rw e (
    close_all_lem files (files.content v) (files.unread v) dp (copy_loop k fuel source target v)
      (copy_loop_lem files fuel (files.content v) v h refl))
