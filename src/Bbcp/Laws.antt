-- ===== src/Bbcp/Laws.antt =====
-- What bbcp.c relies on of the calls that copy, once both files are open.
use computer_science_notes.Base.{
  ℕ, ◌≤◌, ◌<◌, ◌≡◌, Bool, true, false, Option, none, some, List, [], ◌∷◌, ◌++◌, take, length,
}
use computer_science_notes.Bbcp.Main.{Calls}

-- A read takes bytes from the front of what is left to read of the source, none of them only at its
-- end; it leaves the target alone.
abbrev pub ReadAnswer : ℕ → List ℕ → List ℕ → Option (List ℕ) → Type 0
ReadAnswer n before after none = before ≡ after
ReadAnswer n before after (some []) = (before ≡ []) × (after ≡ [])
ReadAnswer n before after (some (b ∷ bs)) = (before ≡ (b ∷ bs) ++ after) × (length (b ∷ bs) ≤ n)

-- The bytes that a write has put at the end of the target.
abbrev pub appended : List ℕ → Option ℕ → List ℕ
appended bytes none = []
appended bytes (some m) = take m bytes

-- `unread` is what read() has still to give of the source, `content` what the target holds. `same` is
-- whether both are one file, so that what is appended is there to be read.
pub record IsFiles {World : Type 0} (k : Calls World) (source target : ℕ) (same : Bool)
    : Type 0 where
  pub unread : World → List ℕ
  pub content : World → List ℕ
  pub read_answer :
      (n : ℕ) (w : World)
      → 0 < n
      → ReadAnswer n (unread w) (unread (k.read source n w).1) (k.read source n w).0
  pub read_keeps : (n : ℕ) (w : World) → content (k.read source n w).1 ≡ content w
  pub write_appends :
      (bytes : List ℕ) (w : World)
      → content (k.write target bytes w).1 ≡ content w ++ appended bytes (k.write target bytes w).0
  pub write_apart :
      (bytes : List ℕ) (w : World) → same ≡ false → unread (k.write target bytes w).1 ≡ unread w
  pub write_same :
      (bytes : List ℕ) (w : World)
      → same ≡ true
      → unread (k.write target bytes w).1 ≡ unread w ++ appended bytes (k.write target bytes w).0
  pub close_keeps : (fd : ℕ) (w : World) → content (k.close fd w) ≡ content w
  pub closedir_keeps : (dp : Option ℕ) (w : World) → content (k.closedir dp w) ≡ content w
