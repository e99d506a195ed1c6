-- ===== src/Randtree/Names.antt =====
-- The strings of rand_dtree.c, without their null bytes.
use computer_science_notes.Base.{
  ℕ, suc, Bool, true, false, ◌&&◌, ◌||◌, Option, none, some, List, [], ◌∷◌, ◌==◌, if◌then◌else◌,
}

abbrev pub FilePath : Type 0
FilePath = List ℕ

abbrev pub slash : ℕ
slash = 47

-- MARKER_STRING
abbrev pub marker : List ℕ
marker = 45 ∷ 45 ∷ []

abbrev begins_with_dash : FilePath → Bool
begins_with_dash [] = false
begins_with_dash (c ∷ l) = c == 45

-- `strstr(path, MARKER_STRING) != NULL`
abbrev pub has_marker : FilePath → Bool
has_marker [] = false
has_marker (c ∷ l) = (c == 45 && begins_with_dash l) || has_marker l

-- What stands before the last slash and behind it, where strrchr() finds one: of `c ∷ l`, by what is
-- found in `l`.
abbrev pub with_first : ℕ → FilePath → Option (FilePath × FilePath) → Option (FilePath × FilePath)
with_first c l (some (before, behind)) = some (c ∷ before, behind)
with_first c l none = if c == slash then some ([], l) else none

abbrev pub at_last_slash : FilePath → Option (FilePath × FilePath)
at_last_slash [] = none
at_last_slash (c ∷ l) = with_first c l (at_last_slash l)

abbrev is_prefix : List ℕ → FilePath → Bool
is_prefix [] l = true
is_prefix (c ∷ p) [] = false
is_prefix (c ∷ p) (d ∷ l) = c == d && is_prefix p l

-- "__ren"
abbrev pub renamed_mark : List ℕ
renamed_mark = 95 ∷ 95 ∷ b'r' ∷ b'e' ∷ b'n' ∷ []

-- Up to the first "__ren".
abbrev pub without_mark : FilePath → FilePath
without_mark [] = []
without_mark (c ∷ l) = if is_prefix renamed_mark (c ∷ l) then [] else c ∷ without_mark l

abbrev pub count_slashes : FilePath → ℕ
count_slashes [] = 0
count_slashes (c ∷ l) = if c == slash then suc (count_slashes l) else count_slashes l
