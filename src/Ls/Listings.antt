-- ===== src/Ls/Listings.antt =====
-- Listings of a directory with three files, in a locale of one byte for each character.
use computer_science_notes.Base.{ltb}
use computer_science_notes.Base.{if◌then◌else◌}
use computer_science_notes.Ls.Rows.{lines_of}
use computer_science_notes.Ls.Measure.{mark}
use computer_science_notes.Ls.Escape.{Printed}
use computer_science_notes.Ls.Columns.{print_rows}
use computer_science_notes.Ls.Columns.{print_row}
use computer_science_notes.Base.{map, zero, suc}
use computer_science_notes.Ls.Layout.{print_function-apply_letters}
use computer_science_notes.Ls.Columns.{
  printed, column_count, spread_width, row_count, column_width, size_width,
}
use computer_science_notes.Ls.Measure.{
  cannot_stat, is_left_out, needs_stats, number_width, count_file, count_stats, count_device,
  count_names, Totals, no_totals, count_all, mark_all, make_display,
}
use computer_science_notes.Ls.Listed.{howmany, decimal, digits, Display, printaname}
use computer_science_notes.Ls.Sheet.{print_rows_places}
use computer_science_notes.Ls.Width.{IsPlain, rows_fit}
use computer_science_notes.Ls.Tally.{has_unknown, display_tallies}
use computer_science_notes.Ls.Endings.{Advances}
use computer_science_notes.Ls.Traversed.{ls_main_ends, finishes}
use computer_science_notes.Ls.Long.{Outside}
use computer_science_notes.Ls.Show.{Progress, Visit, directory_visit, finished, Traversal}
use computer_science_notes.Ls.Main.{setup_of, settle_blocksize, listed, Surroundings, ls_main}
use computer_science_notes.Base.{
  ℕ, ◌+◌, ◌*◌, ◌/◌, ◌%◌, ◌≤◌, ◌<◌, ◌≡◌, refl, true, false, none, some, List, [], ◌∷◌, length,
  get_elem?, arith,
}
use computer_science_notes.Base.Int.{pos}
use computer_science_notes.Ls.Compare.{fts_other}
use computer_science_notes.Ls.Flags.{no_flags}
use computer_science_notes.Ls.Options.{
  apply_letter, long_format, in_columns, sizes, Settings, defaults, apply_letters,
}
use computer_science_notes.Ls.Choices.{PrintFunction, print_function}
use computer_science_notes.Ls.Escape.{Locale, MbRead, null_char, char_read}
use computer_science_notes.Ls.Listed.{Listed, regular}

abbrev read_byte : List ℕ → MbRead × ℕ
read_byte [] = (null_char, 0)
read_byte (zero ∷ bs) = (null_char, 0)
read_byte (suc b ∷ bs) = (char_read (suc b) 1, 0)

abbrev single_bytes : Locale
single_bytes = record {
  Shift = ℕ;
  initial = 0;
  mbrtowc = λ st src. read_byte src;
  wcrtomb = λ st wc. (some (wc ∷ []), st);
  wcwidth = λ wc. 1;
  iswprint = λ wc. true;
  mb_cur_max = 1;
  strvis = λ c_style text. text;
  humanized = λ n. 48 ∷ [];
  grouped = λ n. 48 ∷ [];
  user_from_uid = λ uid. none;
  group_from_gid = λ gid. some (103 ∷ []);
}

abbrev note : Listed
note = record {
  entry = record {
    name = 110 ∷ 111 ∷ [];
    info = fts_other 8;
    at_root = false;
    mtime = pos 20;
    mtimensec = pos 5;
    atime = pos 20;
    atimensec = pos 0;
    ctime = pos 20;
    ctimensec = pos 5;
    size = pos 100;
  };
  path = 46 ∷ 47 ∷ 110 ∷ 111 ∷ [];
  ino = 12;
  blocks = 8;
  nlink = 1;
  kind = regular;
  executable = false;
  major = 0;
  minor = 0;
  uid = 0;
  gid = 0;
  st_flags = no_flags;
  user = [];
  group = [];
  flags = [];
  no_print = false;
}

abbrev program : Listed
program = record note { executable = true; blocks = 120; ino = 7 }

abbrev hidden : Listed
hidden = record note { entry = record note.entry { name = 46 ∷ 104 ∷ [] } }

abbrev folder : List Listed
folder = note ∷ hidden ∷ program ∷ note ∷ []

-- ls -s on a terminal.
abbrev with_sizes : Settings
with_sizes = record (apply_letters (sizes ∷ []) (defaults true false)) {
  nonprint = false;
  blocksize = 1;
}

print_function-apply_letters_example :
    print_function (apply_letters (long_format ∷ in_columns ∷ sizes ∷ []) (defaults false false))
    ≡ PrintFunction.printcol
print_function-apply_letters_example =
    print_function-apply_letters (long_format ∷ in_columns ∷ sizes ∷ []) false false

-- A number of one digit.
abbrev digit_cell : ℕ → Printed
digit_cell n = ((48 + n) ∷ [], 1)

print_rows_places_example :
    let array : List ℕ = 1 ∷ 2 ∷ 3 ∷ 4 ∷ 5 ∷ [] in
    let numrows = row_count (length array) 2 in
    (items : (ℕ → List ℕ)) × (print_rows digit_cell 4 numrows array 2 numrows 0
      ≡ some (lines_of digit_cell 4 items numrows 0))
    × (get_elem? (items 0) 1 ≡ (if ltb 1 2 then get_elem? array (0 + 1 * numrows) else none))
    × (4 % numrows < numrows)
    × (4 / numrows < 2)
    × (get_elem? (items (4 % numrows)) (4 / numrows) ≡ get_elem? array 4)
    × ((0 + 1 * numrows) % numrows ≡ 0)
    × ((0 + 1 * numrows) / numrows ≡ 1)
unfolding row_count
print_rows_places_example =
    print_rows_places digit_cell 4 (1 ∷ 2 ∷ 3 ∷ 4 ∷ 5 ∷ []) 2 4 0 1 (omega arith) (omega arith)
      (omega arith)

abbrev counted : Totals
counted = count_all single_bytes with_sizes false folder no_totals

abbrev measured : Display
measured = make_display with_sizes counted

with_sizes-IsPlain : IsPlain single_bytes with_sizes
unfolding apply_letters apply_letter defaults
with_sizes-IsPlain = (refl, refl, refl, refl, refl, refl)

column_width_value : column_width with_sizes measured ≡ 7
unfolding column_width make_display count_all count_file count_stats count_device count_names
    cannot_stat is_left_out needs_stats number_width howmany decimal digits apply_letters
    apply_letter defaults
column_width_value = refl

first_row_value :
    0
    < row_count
        (length (printed (mark_all single_bytes with_sizes false folder)))
        (column_count 30 (column_width with_sizes measured))
unfolding row_count column_count printed mark_all mark cannot_stat is_left_out needs_stats
    apply_letters apply_letter defaults
first_row_value = rw column_width_value (omega arith)

rows_fit_example :
    let array = printed (mark_all single_bytes with_sizes false folder) in
    let numcols = column_count 30 (column_width with_sizes measured) in
    (line : List ℕ) × (print_row
        (printaname single_bytes with_sizes measured.s_inode (size_width with_sizes measured))
        (spread_width 30 (column_width with_sizes measured))
        (row_count (length array) numcols)
        array
        numcols
        0
      ≡ some line)
    × (length line ≤ 30)
rows_fit_example =
    rows_fit single_bytes with_sizes false folder 30 0 with_sizes-IsPlain
      (omega (arith, column_width_value)) first_row_value

display_tallies_example :
    (length (printed (mark_all single_bytes with_sizes false folder)) ≤ counted.entries)
    × (counted.failed ≡ has_unknown folder)
display_tallies_example = display_tallies single_bytes with_sizes false folder

single_bytes-Advances : Advances single_bytes
single_bytes-Advances st [] wc n st' e = ground arith
single_bytes-Advances st (zero ∷ bs) wc n st' e = ground arith
single_bytes-Advances st (suc b ∷ bs) wc n st' e = ground arith

-- One directory, and then the end.
abbrev next_visit : ℕ → Visit × ℕ
next_visit zero = (directory_visit true (46 ∷ []) (46 ∷ []) (46 ∷ []) folder, 1)
next_visit (suc n) = (finished false, suc n)

abbrev one_folder : Traversal
one_folder = record { State = ℕ; read = next_visit; skip = λ st. st }

abbrev outside : Outside
outside = record {
  strmode = λ p. 45 ∷ [];
  ctime = λ n. none;
  readlink = λ path. none;
  now = pos 40;
  maxpathlen = 1024;
}

abbrev terminal : Surroundings
terminal = record {
  is_tty = true;
  ws_col = some 30;
  is_root = false;
  columns = none;
  atoi = λ text. pos 0;
  getbsize = 1024;
}

one_folder-finishes :
    finishes (setup_of single_bytes outside terminal true one_folder (sizes ∷ [])) one_folder 2 0
    ≡ true
unfolding setup_of settle_blocksize apply_letters apply_letter defaults
one_folder-finishes = refl

ls_main_ends_example :
    (g : Progress) × (ls_main single_bytes outside terminal true one_folder 2
        (map some (sizes ∷ []))
        false
        []
        0
      ≡ some (listed g))
    × (ls_main single_bytes outside terminal true one_folder 5 (map some (sizes ∷ [])) false [] 0
        ≡ some (listed g))
ls_main_ends_example =
    ls_main_ends single_bytes outside terminal true one_folder 2 5 (sizes ∷ []) false [] 0
      one_folder-finishes (omega arith)
