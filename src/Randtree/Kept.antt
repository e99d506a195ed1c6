-- ===== src/Randtree/Kept.antt =====
-- rand_dtree.c keeps to directories that carry its marker: what it makes.
use computer_science_notes.Base.{
  ℕ, zero, suc, ◌+◌, ◌-◌, ◌≤◌, ◌<◌, ◌%◌, ◌≡◌, refl, true, Bool-cases, inl, inr, List, [], ◌∷◌, ◌++◌,
  take_of_length-le, length, length-append, get_or, ltb, arith,
}
use computer_science_notes.Randtree.Names.{FilePath, slash, marker, has_marker, count_slashes}
use computer_science_notes.Randtree.Rounds.{
  Calls, dlim, Change, make, remove, move, RoundEnd, broken, continued, undefined, running, after,
  fit, new_name, make_below, make_path, create_path, precede,
}
use computer_science_notes.Randtree.Marked.{has_marker-append_right, take_uncut}

-- A change that is allowed: what is removed or renamed carries the marker, and what is made or is the
-- new name of something is no longer than DLIM.
abbrev pub IsKept : Change → Type 0
IsKept (make path) = (has_marker path ≡ true) × (length path ≤ dlim)
IsKept (remove path) = has_marker path ≡ true
IsKept (move path target) = (has_marker path ≡ true) × (length target ≤ dlim)

abbrev pub AllKept : List Change → Type 0
AllKept [] = Unit
AllKept (c ∷ changes) = IsKept c × AllKept changes

-- The fuel was enough, and all changes are allowed.
abbrev pub Keeps : {World : Type 0} → RoundEnd World → Type 0
Keeps (broken changes w) = AllKept changes
Keeps (continued changes w) = AllKept changes
Keeps (undefined changes) = AllKept changes
Keeps running = ⊥

pub after-Keeps :
    {World : Type 0} (c : Change) (o : RoundEnd World) → IsKept c → Keeps o → Keeps (after c o)
after-Keeps c (broken changes w) h g = (h, g)
after-Keeps c (continued changes w) h g = (h, g)
after-Keeps c (undefined changes) h g = (h, g)
after-Keeps c running h g = g

AllKept-append : (a b : List Change) → AllKept a → AllKept b → AllKept (a ++ b)
AllKept-append [] b h g = g
AllKept-append (c ∷ a) b h g = (h.0, AllKept-append a b h.1 g)

pub precede-Keeps :
    {World : Type 0} (k : Calls World) (changes : List Change) (o : RoundEnd World)
    → AllKept changes
    → Keeps o
    → Keeps (precede k changes o)
precede-Keeps k changes (broken more w) h g = AllKept-append changes more h g
precede-Keeps k changes (continued more w) h g = AllKept-append changes more h g
precede-Keeps k changes (undefined more) h g = AllKept-append changes more h g
precede-Keeps k changes running h g = g

module _ {World : Type 0} (k : Calls World) (big : dlim + 1 < k.path_max) (opcnt : ℕ) where
  new_name-marked : (path : FilePath) (tag : List ℕ) → has_marker (new_name k opcnt path tag) ≡ true
  new_name-marked path tag = has_marker-append_right path _ (
      has_marker-append_right (slash ∷ k.text (k.pid % 100)) (marker ++ (tag ++ 95 ∷ k.text opcnt))
        refl)

  new_name-longer :
      (path : FilePath) (tag : List ℕ) → length path < length (new_name k opcnt path tag)
  new_name-longer path tag = omega (
    arith,
    length-append path (slash ∷ (k.text (k.pid % 100) ++ (marker ++ (tag ++ 95 ∷ k.text opcnt)))),
  )

  uncut : (path : FilePath) → length (fit k opcnt path) ≤ dlim → fit k opcnt path ≡ path
  uncut path h = take_uncut dlim (k.path_max - 1) path (omega arith) h

  pub short_fit : (path : FilePath) → length path ≤ dlim → fit k opcnt path ≡ path
  short_fit path h = take_of_length-le (k.path_max - 1) path (omega arith)

  -- The inner loop ends, since each path is longer than the one before it.
  make_below-Keeps :
      (fuel : ℕ) (path : FilePath) (scnt : ℕ) (w : World)
      → dlim < fuel + length path
      → length path ≤ dlim
      → Keeps (make_below k opcnt fuel path scnt w)
  unfolding make_below
  make_below-Keeps zero path scnt w h l = absurd (omega arith)
  make_below-Keeps (suc fuel) path scnt w h l =
      let spath = new_name k opcnt path (b's' ∷ b'c' ∷ b'r' ∷ k.text scnt) in
      let longer = new_name-longer path (b's' ∷ b'c' ∷ b'r' ∷ k.text scnt) in
      elim (Bool-cases (ltb ((k.random w).0 % 3) 2)) [
        | inr e ↦ rw e tt
        | inl e ↦ rw e (elim (Bool-cases (ltb dlim (length spath))) [
          | inl e ↦ rw e tt
          | inr e ↦
              let short : length spath ≤ dlim = ground arith in
              let same = short_fit spath short in
              rw e (
                rw same (
                  after-Keeps (make spath) _
                    (new_name-marked path (b's' ∷ b'c' ∷ b'r' ∷ k.text scnt), short)
                    (make_below-Keeps fuel spath (scnt + 1) (k.mkdir spath (k.random w).1).1
                      (omega arith) short)))
        ])
      ]

  make_path-Keeps :
      (fuel : ℕ) (path : FilePath) (w : World)
      → dlim < fuel + length path
      → length path ≤ dlim
      → has_marker path ≡ true
      → Keeps (make_path k opcnt fuel path w)
  unfolding make_path
  make_path-Keeps fuel path w h l m =
      let made = λ (v : World).
        after-Keeps (make path) (make_below k opcnt fuel path 1 (k.mkdir path v).1) (m, l)
          (make_below-Keeps fuel path 1 (k.mkdir path v).1 h l) in
      elim (Bool-cases (ltb 1 (count_slashes path))) [
        | inr e ↦ rw e (made w)
        | inl e ↦ rw e (elim (Bool-cases (ltb 0 ((k.random w).0 % count_slashes path))) [
          | inl d ↦ rw d tt
          | inr d ↦ rw d (made (k.random w).1)
        ])
      ]

  pub create_path-Keeps :
      (fuel : ℕ) (dirs : List FilePath) (w : World)
      → dlim < fuel
      → Keeps (create_path k opcnt fuel dirs w)
  unfolding create_path
  create_path-Keeps fuel [] w h = tt
  create_path-Keeps fuel (dir ∷ dirs) w h =
      let chosen = get_or (dir ∷ dirs) ((k.random w).0 % length (dir ∷ dirs)) [] in
      let full = new_name k opcnt chosen (b'c' ∷ b'r' ∷ []) in
      elim (Bool-cases (ltb dlim (length (fit k opcnt full)))) [
        | inl e ↦ rw e tt
        | inr e ↦
            let short : length (fit k opcnt full) ≤ dlim = ground arith in
            let marked : has_marker (fit k opcnt full) ≡ true =
              rw (uncut full short) (new_name-marked chosen (b'c' ∷ b'r' ∷ [])) in
            rw e (make_path-Keeps fuel (fit k opcnt full) (k.random w).1 (omega arith) short marked)
      ]
