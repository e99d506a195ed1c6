-- ===== src/Randtree/Rounds.antt =====
-- rand_dtree.c: main() from its loop on.
use computer_science_notes.Base.{
  ℕ, zero, suc, ◌+◌, ◌-◌, ◌%◌, Bool, ◌&&◌, Option, none, some, List, [], ◌∷◌, ◌++◌, take, length,
  get_or, ltb, leb, ◌==◌, if◌then◌else◌,
}
use computer_science_notes.Randtree.Names.{
  FilePath, slash, marker, has_marker, at_last_slash, renamed_mark, without_mark, count_slashes,
}

-- The calls of the loop, on a type of states of the outside. `directories` is what nftw() finds below
-- the root, `text` and `padded` are the conversions `%ld` and `%04d`, `stop_file` is whether access()
-- finds the stop file.
pub record Calls (World : Type 0) : Type 0 where
  pub path_max : ℕ
  pub pid : ℕ
  pub text : ℕ → List ℕ
  pub padded : ℕ → List ℕ
  pub directories : World → List FilePath × World
  pub random : World → ℕ × World
  pub mkdir : FilePath → World → Bool × World
  pub rmdir : FilePath → World → Bool × World
  pub rename : FilePath → FilePath → World → Bool × World
  pub stop_file : World → Bool × World

-- DLIM
abbrev pub dlim : ℕ
dlim = 60

-- The calls that change the tree, whether they succeed or not.
pub data Change : Type 0 where
  make : FilePath → Change
  remove : FilePath → Change
  move : FilePath → FilePath → Change

-- How a round ends: by `break` from the switch, by `continue`, in a division by zero or at a null
-- pointer, or not within its fuel.
pub data RoundEnd (World : Type 0) : Type 0 where
  broken : List Change → World → RoundEnd World
  continued : List Change → World → RoundEnd World
  undefined : List Change → RoundEnd World
  running : RoundEnd World

abbrev pub after : {World : Type 0} → Change → RoundEnd World → RoundEnd World
after a (broken changes w) = broken (a ∷ changes) w
after a (continued changes w) = continued (a ∷ changes) w
after a (undefined changes) = undefined (a ∷ changes)
after a running = running

module _ {World : Type 0} (k : Calls World) (opcnt : ℕ) where
  open k use {path_max, pid, text, padded, random, mkdir, rmdir, rename}

  -- snprintf() to an array of PATH_MAX bytes.
  abbrev pub fit : FilePath → FilePath
  fit path = take (path_max - 1) path

  -- "%s/%ld%s%s_%d"
  abbrev pub new_name : FilePath → List ℕ → FilePath
  new_name path tag = path ++ slash ∷ (text (pid % 100) ++ (marker ++ (tag ++ 95 ∷ text opcnt)))

  -- The inner loop of the case 'c', for at most `fuel` rounds.
  unfoldable pub make_below : ℕ → FilePath → ℕ → World → RoundEnd World
  make_below zero path scnt w = running
  make_below (suc fuel) path scnt w =
      let (r, v) = random w in
      let spath = new_name path (b's' ∷ b'c' ∷ b'r' ∷ text scnt) in
      let rest = make_below fuel (fit spath) (scnt + 1) (mkdir (fit spath) v).1 in
      if ltb (r % 3) 2
      then (if ltb dlim (length spath) then broken [] v else after (make (fit spath)) rest)
      else broken [] v

  -- `if (nslashes > 1) if (random() % nslashes > 0) continue;` and what follows.
  unfoldable pub make_path : ℕ → FilePath → World → RoundEnd World
  make_path fuel path w =
      let made = after (make path) (make_below fuel path 1 (mkdir path w).1) in
      let (r, v) = random w in
      let made_later = after (make path) (make_below fuel path 1 (mkdir path v).1) in
      if ltb 1 (count_slashes path)
      then (if ltb 0 (r % count_slashes path) then continued [] v else made_later)
      else made

  -- `case 'c'`
  unfoldable pub create_path : ℕ → List FilePath → World → RoundEnd World
  create_path fuel [] w = undefined []
  create_path fuel (dir ∷ dirs) w =
      let (r, v) = random w in
      let path =
        fit (new_name (get_or (dir ∷ dirs) (r % length (dir ∷ dirs)) []) (b'c' ∷ b'r' ∷ [])) in
      if ltb dlim (length path) then continued [] v else make_path fuel path v

  -- `*p = '\0'`, where strrchr() finds a slash.
  unfoldable pub remove_above :
      (FilePath → World → RoundEnd World) → Option (FilePath × FilePath) → World → RoundEnd World
  remove_above again none w = broken [] w
  remove_above again (some (before, behind)) w = again before w

  -- The loop of the case 'd', which cuts the path at its last slash.
  unfoldable pub remove_up : ℕ → FilePath → World → RoundEnd World
  remove_up zero path w = running
  remove_up (suc fuel) path w =
      let (ok, v) = rmdir path w in
      let upper = remove_above (remove_up fuel) (at_last_slash path) v in
      if has_marker path
      then after (remove path) (if ok then upper else broken [] v)
      else broken [] w

  -- `case 'd'`
  unfoldable pub delete : List FilePath → World → RoundEnd World
  delete [] w = continued [] w
  delete (dir ∷ dirs) w =
      let (r, v) = random w in
      let path = fit (get_or (dir ∷ dirs) (r % length (dir ∷ dirs)) []) in
      remove_up (suc (length path)) path v

  -- The rename of `to_move`, whose name behind the last slash is `name`.
  unfoldable pub move_marked :
      List FilePath → FilePath → Option (FilePath × FilePath) → World → RoundEnd World
  move_marked dirs to_move none w = undefined []
  move_marked dirs to_move (some (before, name)) w =
      let (r, v) = random w in
      let target =
        get_or dirs (r % length dirs) []
        ++ slash ∷ (without_mark (fit name) ++ (renamed_mark ++ (padded opcnt ++ 45 ∷ text pid))) in
      if ltb dlim (length target)
      then broken [] v
      else broken (move to_move (fit target) ∷ []) (rename to_move (fit target) v).1

  -- `case 'm'`
  unfoldable pub move_one : List FilePath → World → RoundEnd World
  move_one dirs w =
      let (r, v) = random w in
      let to_move = get_or dirs (r % length dirs) [] in
      if ltb (length dirs) 3
      then continued [] w
      else if has_marker to_move
      then move_marked dirs to_move (at_last_slash to_move) v
      else broken [] v

  -- The switch on the first letter of the second argument.
  unfoldable pub operate : ℕ → ℕ → List FilePath × World → RoundEnd World
  operate fuel letter (dirs, w) =
      if letter == b'c'
      then create_path fuel dirs w
      else if letter == b'd'
      then delete dirs w
      else if letter == b'm'
      then move_one dirs w
      else broken [] w

module _ {World : Type 0} (k : Calls World) where
  -- `maxops > 0 && opcnt >= maxops`, where `opcnt` has been counted up.
  abbrev pub is_last : ℕ → ℕ → Bool
  is_last maxops opcnt = ltb 0 maxops && leb maxops opcnt

  abbrev pub precede : List Change → RoundEnd World → RoundEnd World
  precede changes (broken more w) = broken (changes ++ more) w
  precede changes (continued more w) = continued (changes ++ more) w
  precede changes (undefined more) = undefined (changes ++ more)
  precede changes running = running

  -- From the end of the switch on; a `continue` passes over the tests there.
  unfoldable pub end_round : (ℕ → World → RoundEnd World) → ℕ → ℕ → RoundEnd World → RoundEnd World
  end_round again maxops opcnt (broken changes w) =
      let (stop, v) = k.stop_file w in
      if is_last maxops (opcnt + 1)
      then broken changes w
      else if stop
      then broken changes v
      else precede changes (again (opcnt + 1) v)
  end_round again maxops opcnt (continued changes w) = precede changes (again opcnt w)
  end_round again maxops opcnt (undefined changes) = undefined changes
  end_round again maxops opcnt running = running

  -- The first rounds of the loop `for (;;)`, with all changes of the tree in their order; `continued`
  -- where it goes on.
  unfoldable pub main_loop : ℕ → ℕ → ℕ → ℕ → ℕ → World → RoundEnd World
  main_loop zero fuel letter maxops opcnt w = continued [] w
  main_loop (suc rounds) fuel letter maxops opcnt w =
      end_round (main_loop rounds fuel letter maxops) maxops opcnt
        (operate k opcnt fuel letter (k.directories w))
