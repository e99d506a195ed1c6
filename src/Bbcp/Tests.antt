-- ===== src/Bbcp/Tests.antt =====
-- A disk on which a read gives one byte, and runs of bbcp.c on it.
use computer_science_notes.Base.{
  ℕ, ◌<◌, ◌≡◌, ◌≢◌, refl, sym, ap, Bool, true, false, Option, none, some, List, [], ◌∷◌, ◌++◌, take,
  take_of_length-le, length, arith,
}
use computer_science_notes.Bbcp.Main.{Calls, exit_success, open_both, copy_loop, bbcp}
use computer_science_notes.Bbcp.Laws.{ReadAnswer, appended, IsFiles}
use computer_science_notes.Bbcp.Copied.{CopyResult, bbcp_lem}
use computer_science_notes.Bbcp.Endless.{IsRunning, NeverFails, bbcp-IsRunning}

-- What is left of the source, and the target.
record Disk : Type 0 where
  source_left : List ℕ
  target_text : List ℕ

abbrev read_one : Disk → List ℕ → Option (List ℕ) × Disk
read_one d [] = (some [], d)
read_one d (b ∷ bs) = (some (b ∷ []), record d { source_left = bs })

abbrev write_all : Bool → List ℕ → Disk → Option ℕ × Disk
write_all false bytes d = (some (length bytes), record d { target_text = d.target_text ++ bytes })
write_all true bytes d = (
  some (length bytes),
  record { source_left = d.source_left ++ bytes; target_text = d.target_text ++ bytes },
)

-- No name is that of a directory; the source is 3 and the target 4.
abbrev disk_calls : Bool → Calls Disk
disk_calls same = record {
  open_source = λ n d. (some 3, d);
  lstat_mode = λ n d. (some 0o644, d);
  opendir = λ n d. (none, d);
  dirfd = λ s. s;
  open_target = λ n m d. (some 4, d);
  openat_target = λ f n m d. (none, d);
  read = λ fd n d. read_one d d.source_left;
  write = λ fd bytes d. write_all same bytes d;
  close = λ fd d. d;
  closedir = λ dp d. d;
}

read_one_answer :
    (n : ℕ) (d : Disk) (l : List ℕ)
    → d.source_left ≡ l
    → 0 < n
    → ReadAnswer n d.source_left (read_one d l).1.source_left (read_one d l).0
read_one_answer n d [] e h = (e, e)
read_one_answer n d (b ∷ bs) e h = (e, h)

read_one_keeps : (d : Disk) (l : List ℕ) → (read_one d l).1.target_text ≡ d.target_text
read_one_keeps d [] = refl
read_one_keeps d (b ∷ bs) = refl

take_all : (bytes : List ℕ) → take (length bytes) bytes ≡ bytes
take_all bytes = take_of_length-le (length bytes) bytes (omega arith)

write_all_appends :
    (same : Bool) (bytes : List ℕ) (d : Disk)
    → (write_all same bytes d).1.target_text
      ≡ d.target_text ++ appended bytes (write_all same bytes d).0
write_all_appends true bytes d = ap (λ l. d.target_text ++ l) (sym (take_all bytes))
write_all_appends false bytes d = ap (λ l. d.target_text ++ l) (sym (take_all bytes))

write_all_same :
    (same : Bool) (bytes : List ℕ) (d : Disk)
    → same ≡ true
    → (write_all same bytes d).1.source_left
      ≡ d.source_left ++ appended bytes (write_all same bytes d).0
write_all_same true bytes d e = ap (λ l. d.source_left ++ l) (sym (take_all bytes))
write_all_same false bytes d e = cc

write_all_apart :
    (same : Bool) (bytes : List ℕ) (d : Disk)
    → same ≡ false
    → (write_all same bytes d).1.source_left ≡ d.source_left
write_all_apart true bytes d e = cc
write_all_apart false bytes d e = refl

abbrev disk_files : (same : Bool) → IsFiles (disk_calls same) 3 4 same
disk_files same = record {
  unread = λ d. d.source_left;
  content = λ d. d.target_text;
  read_answer = λ n d h. read_one_answer n d d.source_left refl h;
  read_keeps = λ n d. read_one_keeps d d.source_left;
  write_appends = write_all_appends same;
  write_apart = write_all_apart same;
  write_same = write_all_same same;
  close_keeps = λ fd d. refl;
  closedir_keeps = λ dp d. refl;
}

abbrev full_disk : Disk
full_disk = record { source_left = 7 ∷ 8 ∷ []; target_text = 5 ∷ [] }

bbcp_test :
    bbcp (disk_calls false) 3 (1 ∷ []) (2 ∷ []) full_disk
    ≡ exit_success (record { source_left = []; target_text = 5 ∷ 7 ∷ 8 ∷ [] })
unfolding bbcp open_both copy_loop
bbcp_test = refl

bbcp_lem_example :
    CopyResult
      (λ d. d.target_text)
      (5 ∷ [])
      (7 ∷ 8 ∷ [])
      (bbcp (disk_calls false) 3 (1 ∷ []) (2 ∷ []) full_disk)
unfolding open_both
bbcp_lem_example =
    bbcp_lem (disk_calls false) 3 (1 ∷ []) (2 ∷ []) full_disk full_disk 3 4 none (disk_files false)
      refl (omega arith)

read_one_returns : (d : Disk) (l : List ℕ) → (read_one d l).0 ≢ none
read_one_returns d [] = λ e. cc
read_one_returns d (b ∷ bs) = λ e. cc

never_fails : NeverFails (disk_calls true) 3 4
never_fails = record { reads = λ n d. read_one_returns d d.source_left; writes = λ bytes d. refl }

bbcp-IsRunning_example : IsRunning (bbcp (disk_calls true) 100 (1 ∷ []) (1 ∷ []) full_disk)
unfolding open_both
bbcp-IsRunning_example =
    bbcp-IsRunning (disk_calls true) 100 (1 ∷ []) (1 ∷ []) full_disk full_disk 3 4 none
      (disk_files true) never_fails refl (omega arith)
