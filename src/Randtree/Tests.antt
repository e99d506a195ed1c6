-- ===== src/Randtree/Tests.antt =====
-- A tree with one directory, on which all calls succeed and random() counts.
use computer_science_notes.Base.{ℕ, ◌+◌, true, false, List, [], ◌∷◌, ◌≡◌, refl, arith}
use computer_science_notes.Randtree.Rounds.{
  Calls, undefined, main_loop, end_round, operate, create_path,
}
use computer_science_notes.Randtree.Kept.{Keeps}
use computer_science_notes.Randtree.Swept.{main_loop-Keeps}

abbrev digit : ℕ → List ℕ
digit n = (48 + n) ∷ []

abbrev root_dir : List ℕ
root_dir = 47 ∷ b't' ∷ []

abbrev counting : List (List ℕ) → Calls ℕ
counting dirs = record {
  path_max = 4096;
  pid = 7;
  text = digit;
  padded = digit;
  directories = λ w. (dirs, w);
  random = λ w. (w, w + 1);
  mkdir = λ path w. (true, w);
  rmdir = λ path w. (true, w);
  rename = λ path target w. (true, w);
  stop_file = λ w. (false, w);
}

main_loop-Keeps_example : Keeps (main_loop (counting (root_dir ∷ [])) 3 61 b'c' 0 0 5)
main_loop-Keeps_example =
    main_loop-Keeps (counting (root_dir ∷ [])) (omega arith) 3 61 b'c' 0 0 5 (omega arith)

-- Where nftw() finds no directory, random() is divided by zero.
no_directory_test : main_loop (counting []) 1 61 b'c' 0 0 5 ≡ undefined []
unfolding main_loop end_round operate create_path
no_directory_test = refl
