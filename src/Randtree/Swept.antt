-- ===== src/Randtree/Swept.antt =====
-- rand_dtree.c keeps to directories that carry its marker: deleting, renaming, and all rounds.
use computer_science_notes.Base.{
  ℕ, zero, suc, ◌+◌, ◌≤◌, ◌<◌, ◌%◌, ◌≡◌, refl, true, Bool-cases, inl, inr, Option, none, some, List,
  [], ◌∷◌, ◌++◌, length, get_or, ltb, ◌==◌, arith,
}
use computer_science_notes.Randtree.Names.{
  FilePath, slash, has_marker, at_last_slash, without_mark, renamed_mark,
}
use computer_science_notes.Randtree.Rounds.{
  Calls, dlim, remove, RoundEnd, broken, continued, undefined, running, fit, remove_above,
  remove_up, delete, move_marked, move_one, operate, is_last, end_round, main_loop,
}
use computer_science_notes.Randtree.Marked.{at_last_slash-shorter}
use computer_science_notes.Randtree.Kept.{
  Keeps, after-Keeps, precede-Keeps, short_fit, create_path-Keeps,
}

module _ {World : Type 0} (k : Calls World) (big : dlim + 1 < k.path_max) (opcnt : ℕ) where
  remove_above-Keeps :
      (again : FilePath → World → RoundEnd World) (path : FilePath)
      (r : Option (FilePath × FilePath)) (w : World)
      → at_last_slash path ≡ r
      → ((before : FilePath) → length before < length path → Keeps (again before w))
      → Keeps (remove_above k opcnt again r w)
  unfolding remove_above
  remove_above-Keeps again path none w e ih = tt
  remove_above-Keeps again path (some (before, behind)) w e ih =
      ih before (at_last_slash-shorter path before behind e)

  -- The loop ends, since each path is shorter than the one before it.
  remove_up-Keeps :
      (fuel : ℕ) (path : FilePath) (w : World)
      → length path < fuel
      → Keeps (remove_up k opcnt fuel path w)
  unfolding remove_up
  remove_up-Keeps zero path w h = absurd (omega arith)
  remove_up-Keeps (suc fuel) path w h =
      let v = (k.rmdir path w).1 in
      let upper =
        remove_above-Keeps (remove_up k opcnt fuel) path (at_last_slash path) v refl
          (λ before l. remove_up-Keeps fuel before v (omega arith)) in
      elim (Bool-cases (has_marker path)) [
        | inr e ↦ rw e tt
        | inl e ↦ rw e (elim (Bool-cases (k.rmdir path w).0) [
          | inl d ↦ rw d (after-Keeps (remove path) _ e upper)
          | inr d ↦ rw d (after-Keeps (remove path) (broken [] v) e tt)
        ])
      ]

  delete-Keeps : (dirs : List FilePath) (w : World) → Keeps (delete k opcnt dirs w)
  unfolding delete
  delete-Keeps [] w = tt
  delete-Keeps (dir ∷ dirs) w = remove_up-Keeps _ _ (k.random w).1 (omega arith)

  move_marked-Keeps :
      (dirs : List FilePath) (to_move : FilePath) (r : Option (FilePath × FilePath)) (w : World)
      → has_marker to_move ≡ true
      → Keeps (move_marked k opcnt dirs to_move r w)
  unfolding move_marked
  move_marked-Keeps dirs to_move none w m = tt
  move_marked-Keeps dirs to_move (some (before, name)) w m =
      let target =
        get_or dirs ((k.random w).0 % length dirs) []
        ++ slash
          ∷ (without_mark (fit k opcnt name)
              ++ (renamed_mark ++ (k.padded opcnt ++ 45 ∷ k.text k.pid))) in
      elim (Bool-cases (ltb dlim (length target))) [
        | inl e ↦ rw e tt
        | inr e ↦
            let short : length target ≤ dlim = ground arith in
            rw e (rw (short_fit k big opcnt target short) ((m, short), tt))
      ]

  move_one-Keeps : (dirs : List FilePath) (w : World) → Keeps (move_one k opcnt dirs w)
  unfolding move_one
  move_one-Keeps dirs w =
      let to_move = get_or dirs ((k.random w).0 % length dirs) [] in
      elim (Bool-cases (ltb (length dirs) 3)) [
        | inl e ↦ rw e tt
        | inr e ↦ rw e (elim (Bool-cases (has_marker to_move)) [
          | inr d ↦ rw d tt
          | inl d ↦ rw d (move_marked-Keeps dirs to_move (at_last_slash to_move) (k.random w).1 d)
        ])
      ]

  operate-Keeps :
      (fuel letter : ℕ) (found : List FilePath × World)
      → dlim < fuel
      → Keeps (operate k opcnt fuel letter found)
  unfolding operate
  operate-Keeps fuel letter (dirs, w) h = elim (Bool-cases (letter == b'c')) [
    | inl e ↦ rw e (create_path-Keeps k big opcnt fuel dirs w h)
    | inr e ↦ rw e (elim (Bool-cases (letter == b'd')) [
      | inl e ↦ rw e (delete-Keeps dirs w)
      | inr e ↦ rw e (elim (Bool-cases (letter == b'm')) [
        | inl e ↦ rw e (move_one-Keeps dirs w)
        | inr e ↦ rw e tt
      ])
    ])
  ]

module _ {World : Type 0} (k : Calls World) (big : dlim + 1 < k.path_max) where
  end_round-Keeps :
      (again : ℕ → World → RoundEnd World) (maxops opcnt : ℕ) (o : RoundEnd World)
      → ((n : ℕ) (w : World) → Keeps (again n w))
      → Keeps o
      → Keeps (end_round k again maxops opcnt o)
  unfolding end_round
  end_round-Keeps again maxops opcnt (broken changes w) ih h =
      elim (Bool-cases (is_last k maxops (opcnt + 1))) [
        | inl e ↦ rw e h
        | inr e ↦ rw e (elim (Bool-cases (k.stop_file w).0) [
          | inl d ↦ rw d h
          | inr d ↦ rw d (precede-Keeps k changes _ h (ih (opcnt + 1) (k.stop_file w).1))
        ])
      ]
  end_round-Keeps again maxops opcnt (continued changes w) ih h =
      precede-Keeps k changes _ h (ih opcnt w)
  end_round-Keeps again maxops opcnt (undefined changes) ih h = h
  end_round-Keeps again maxops opcnt running ih h = h

  -- Where PATH_MAX is more than DLIM + 1, and with fuel for one round more than DLIM: however the
  -- calls come out, in any number of rounds each inner loop ends, all that is removed or renamed
  -- carries the marker, what is made carries it too and is no longer than DLIM, and no new name is.
  pub main_loop-Keeps :
      (rounds fuel letter maxops opcnt : ℕ) (w : World)
      → dlim < fuel
      → Keeps (main_loop k rounds fuel letter maxops opcnt w)
  unfolding main_loop
  main_loop-Keeps zero fuel letter maxops opcnt w h = tt
  main_loop-Keeps (suc rounds) fuel letter maxops opcnt w h =
      end_round-Keeps (main_loop k rounds fuel letter maxops) maxops opcnt _
        (λ n v. main_loop-Keeps rounds fuel letter maxops n v h)
        (operate-Keeps k big opcnt fuel letter (k.directories w) h)
