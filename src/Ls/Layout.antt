-- ===== src/Ls/Layout.antt =====
-- Which options win in ls.
use computer_science_notes.Base.{
  Bool, true, false, not, ◌≡◌, refl, arith, ◌&&◌, List, [], ◌∷◌, if◌then◌else◌, ◌∙◌,
}
use computer_science_notes.Ls.Options.{
  Letter, single_column, in_columns, without_owner, long_format, stream_format, across, change_time,
  access_time, type_marks, follow_links, recurse, unsorted, all_entries, almost_all, octal_bytes,
  octal_escapes, directories_themselves, inode_numbers, kilobytes, human_sizes, with_commas,
  numeric_ids, leaf_names, file_flags, full_paths, directory_marks, question_marks, reversed,
  size_order, sizes, full_times, time_order, whiteouts, raw_bytes, one_file_system, GroupOnly,
  not_asked, asked, overruled, Settings, defaults, apply_letter, apply_letters,
}
use computer_science_notes.Ls.Choices.{
  group_only, PrintFunction, printscol, printacol, printlong, printstream, printcol, print_function,
}

abbrev is_printscol : PrintFunction → Bool
is_printscol printscol = true
is_printscol _ = false

abbrev is_printacol : PrintFunction → Bool
is_printacol printacol = true
is_printacol _ = false

abbrev is_printlong : PrintFunction → Bool
is_printlong printlong = true
is_printlong _ = false

abbrev is_printstream : PrintFunction → Bool
is_printstream printstream = true
is_printstream _ = false

abbrev is_printcol : PrintFunction → Bool
is_printcol printcol = true
is_printcol _ = false

-- The five variables for the layout, with exactly one of them set, for the function they stand for.
abbrev HasLayout : PrintFunction → Settings → Type 0
HasLayout f s =
    (s.singlecol ≡ is_printscol f)
    × (s.columnacross ≡ is_printacol f)
    × (s.longform ≡ is_printlong f)
    × (s.stream ≡ is_printstream f)
    × (s.column ≡ is_printcol f)

-- The layout that an option asks for, if it asks for one.
abbrev pub asks_for : Letter → PrintFunction → PrintFunction
asks_for single_column f = printscol
asks_for in_columns f = printcol
asks_for without_owner f = printlong
asks_for long_format f = printlong
asks_for stream_format f = printstream
asks_for across f = printacol
asks_for numeric_ids f = printlong
asks_for _ f = f

-- The layout that the last of the options that ask for one asks for.
abbrev pub last_layout : List Letter → PrintFunction → PrintFunction
last_layout [] f = f
last_layout (l ∷ ls) f = last_layout ls (asks_for l f)

apply_letter-HasLayout :
    (l : Letter) (f : PrintFunction) (s : Settings)
    → HasLayout f s
    → HasLayout (asks_for l f) (apply_letter l s)
unfolding apply_letter
apply_letter-HasLayout single_column f s h = (refl, refl, refl, refl, refl)
apply_letter-HasLayout in_columns f s h = (refl, refl, refl, refl, refl)
apply_letter-HasLayout without_owner f s h = (refl, refl, refl, refl, refl)
apply_letter-HasLayout long_format f s h = (refl, refl, refl, refl, refl)
apply_letter-HasLayout stream_format f s h = (refl, refl, refl, refl, refl)
apply_letter-HasLayout across f s h = (refl, refl, refl, refl, refl)
apply_letter-HasLayout change_time f s h = h
apply_letter-HasLayout access_time f s h = h
apply_letter-HasLayout type_marks f s h = h
apply_letter-HasLayout follow_links f s h = h
apply_letter-HasLayout recurse f s h = h
apply_letter-HasLayout unsorted f s h = h
apply_letter-HasLayout all_entries f s h = h
apply_letter-HasLayout almost_all f s h = h
apply_letter-HasLayout octal_bytes f s h = h
apply_letter-HasLayout octal_escapes f s h = h
apply_letter-HasLayout directories_themselves f s h = h
apply_letter-HasLayout inode_numbers f s h = h
apply_letter-HasLayout kilobytes f s h = h
apply_letter-HasLayout human_sizes f s h = h
apply_letter-HasLayout with_commas f s h = h
apply_letter-HasLayout numeric_ids f s h = (refl, refl, refl, refl, refl)
apply_letter-HasLayout leaf_names f s h = h
apply_letter-HasLayout file_flags f s h = h
apply_letter-HasLayout full_paths f s h = h
apply_letter-HasLayout directory_marks f s h = h
apply_letter-HasLayout question_marks f s h = h
apply_letter-HasLayout reversed f s h = h
apply_letter-HasLayout size_order f s h = h
apply_letter-HasLayout sizes f s h = h
apply_letter-HasLayout full_times f s h = h
apply_letter-HasLayout time_order f s h = h
apply_letter-HasLayout whiteouts f s h = h
apply_letter-HasLayout raw_bytes f s h = h
apply_letter-HasLayout one_file_system f s h = h

apply_letters-HasLayout :
    (ls : List Letter) (f : PrintFunction) (s : Settings)
    → HasLayout f s
    → HasLayout (last_layout ls f) (apply_letters ls s)
unfolding apply_letters
apply_letters-HasLayout [] f s h = h
apply_letters-HasLayout (l ∷ ls) f s h =
    apply_letters-HasLayout ls (asks_for l f) (apply_letter l s) (apply_letter-HasLayout l f s h)

print_function_lem : (f : PrintFunction) (s : Settings) → HasLayout f s → print_function s ≡ f
unfolding print_function
print_function_lem printscol s h = ground arith
print_function_lem printacol s h = ground arith
print_function_lem printlong s h = ground arith
print_function_lem printstream s h = ground arith
print_function_lem printcol s h = ground arith

defaults-HasLayout :
    (is_tty is_root : Bool)
    → HasLayout (if is_tty then printcol else printscol) (defaults is_tty is_root)
unfolding defaults
defaults-HasLayout true is_root = (refl, refl, refl, refl, refl)
defaults-HasLayout false is_root = (refl, refl, refl, refl, refl)

-- For every list of options, the layout is that of the last option among -1, -C, -g, -l, -m, -n and -x;
-- with none of these it is in columns on a terminal, and one to a line elsewhere.
pub print_function-apply_letters :
    (ls : List Letter) (is_tty is_root : Bool)
    → print_function (apply_letters ls (defaults is_tty is_root))
      ≡ last_layout ls (if is_tty then printcol else printscol)
print_function-apply_letters ls is_tty is_root =
    print_function_lem _ _
      (apply_letters-HasLayout ls _ (defaults is_tty is_root) (defaults-HasLayout is_tty is_root))

-- Whether -l stands in a list of options, and whether -g does.
abbrev pub has_long : List Letter → Bool
has_long [] = false
has_long (long_format ∷ ls) = true
has_long (_ ∷ ls) = has_long ls

abbrev pub has_group : List Letter → Bool
has_group [] = false
has_group (without_owner ∷ ls) = true
has_group (_ ∷ ls) = has_group ls

-- f_grouponly behind some options, by its value before them.
abbrev grouped : List Letter → GroupOnly → Bool
grouped ls overruled = false
grouped ls asked = not (has_long ls)
grouped ls not_asked = has_group ls && not (has_long ls)

grouped_lem :
    (ls : List Letter) (s : Settings)
    → group_only (apply_letters ls s).grouponly ≡ grouped ls s.grouponly
unfolding apply_letters apply_letter
grouped_lem [] s = ground arith
grouped_lem (single_column ∷ ls) s = grouped_lem ls (apply_letter single_column s)
grouped_lem (in_columns ∷ ls) s = grouped_lem ls (apply_letter in_columns s)
grouped_lem (without_owner ∷ ls) s = grouped_lem ls (apply_letter without_owner s) ∙ ground arith
grouped_lem (long_format ∷ ls) s = grouped_lem ls (apply_letter long_format s) ∙ ground arith
grouped_lem (stream_format ∷ ls) s = grouped_lem ls (apply_letter stream_format s)
grouped_lem (across ∷ ls) s = grouped_lem ls (apply_letter across s)
grouped_lem (change_time ∷ ls) s = grouped_lem ls (apply_letter change_time s)
grouped_lem (access_time ∷ ls) s = grouped_lem ls (apply_letter access_time s)
grouped_lem (type_marks ∷ ls) s = grouped_lem ls (apply_letter type_marks s)
grouped_lem (follow_links ∷ ls) s = grouped_lem ls (apply_letter follow_links s)
grouped_lem (recurse ∷ ls) s = grouped_lem ls (apply_letter recurse s)
grouped_lem (unsorted ∷ ls) s = grouped_lem ls (apply_letter unsorted s)
grouped_lem (all_entries ∷ ls) s = grouped_lem ls (apply_letter all_entries s)
grouped_lem (almost_all ∷ ls) s = grouped_lem ls (apply_letter almost_all s)
grouped_lem (octal_bytes ∷ ls) s = grouped_lem ls (apply_letter octal_bytes s)
grouped_lem (octal_escapes ∷ ls) s = grouped_lem ls (apply_letter octal_escapes s)
grouped_lem (directories_themselves ∷ ls) s = grouped_lem ls (apply_letter directories_themselves s)
grouped_lem (inode_numbers ∷ ls) s = grouped_lem ls (apply_letter inode_numbers s)
grouped_lem (kilobytes ∷ ls) s = grouped_lem ls (apply_letter kilobytes s)
grouped_lem (human_sizes ∷ ls) s = grouped_lem ls (apply_letter human_sizes s)
grouped_lem (with_commas ∷ ls) s = grouped_lem ls (apply_letter with_commas s)
grouped_lem (numeric_ids ∷ ls) s = grouped_lem ls (apply_letter numeric_ids s)
grouped_lem (leaf_names ∷ ls) s = grouped_lem ls (apply_letter leaf_names s)
grouped_lem (file_flags ∷ ls) s = grouped_lem ls (apply_letter file_flags s)
grouped_lem (full_paths ∷ ls) s = grouped_lem ls (apply_letter full_paths s)
grouped_lem (directory_marks ∷ ls) s = grouped_lem ls (apply_letter directory_marks s)
grouped_lem (question_marks ∷ ls) s = grouped_lem ls (apply_letter question_marks s)
grouped_lem (reversed ∷ ls) s = grouped_lem ls (apply_letter reversed s)
grouped_lem (size_order ∷ ls) s = grouped_lem ls (apply_letter size_order s)
grouped_lem (sizes ∷ ls) s = grouped_lem ls (apply_letter sizes s)
grouped_lem (full_times ∷ ls) s = grouped_lem ls (apply_letter full_times s)
grouped_lem (time_order ∷ ls) s = grouped_lem ls (apply_letter time_order s)
grouped_lem (whiteouts ∷ ls) s = grouped_lem ls (apply_letter whiteouts s)
grouped_lem (raw_bytes ∷ ls) s = grouped_lem ls (apply_letter raw_bytes s)
grouped_lem (one_file_system ∷ ls) s = grouped_lem ls (apply_letter one_file_system s)

-- The owner is left out exactly where -g is among the options and -l is not, in whatever order they
-- are given.
pub group_only-apply_letters :
    (ls : List Letter) (is_tty is_root : Bool)
    → group_only (apply_letters ls (defaults is_tty is_root)).grouponly
      ≡ (has_group ls && not (has_long ls))
unfolding defaults
group_only-apply_letters ls is_tty is_root = grouped_lem ls (defaults is_tty is_root)
