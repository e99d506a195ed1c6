-- ===== src/Ls/Options.antt =====
-- The options of ls.c: the loop over getopt() in ls_main(), and what ls_main() makes of them.
use computer_science_notes.Base.{ℕ, Bool, true, false, not, List, [], ◌∷◌}
use computer_science_notes.Ls.Compare.{SortKey, by_name, by_size, by_time}

-- The letters that getopt() may give, under a name for what each asks for.
pub data Letter : Type 0 where
  single_column : Letter  -- -1
  in_columns : Letter  -- -C
  without_owner : Letter  -- -g
  long_format : Letter  -- -l
  stream_format : Letter  -- -m
  across : Letter  -- -x
  change_time : Letter  -- -c
  access_time : Letter  -- -u
  type_marks : Letter  -- -F
  follow_links : Letter  -- -L
  recurse : Letter  -- -R
  unsorted : Letter  -- -f
  all_entries : Letter  -- -a
  almost_all : Letter  -- -A
  octal_bytes : Letter  -- -B
  octal_escapes : Letter  -- -b
  directories_themselves : Letter  -- -d
  inode_numbers : Letter  -- -i
  kilobytes : Letter  -- -k
  human_sizes : Letter  -- -h
  with_commas : Letter  -- -M
  numeric_ids : Letter  -- -n
  leaf_names : Letter  -- -O
  file_flags : Letter  -- -o
  full_paths : Letter  -- -P
  directory_marks : Letter  -- -p
  question_marks : Letter  -- -q
  reversed : Letter  -- -r
  size_order : Letter  -- -S
  sizes : Letter  -- -s
  full_times : Letter  -- -T
  time_order : Letter  -- -t
  whiteouts : Letter  -- -W
  raw_bytes : Letter  -- -w
  one_file_system : Letter  -- -X

-- f_grouponly: 0, 1, or the -1 by which -l overrules -g.
pub data GroupOnly : Type 0 where
  not_asked : GroupOnly
  asked : GroupOnly
  overruled : GroupOnly

-- The variables that the options set; `show_type`, `show_size`, `show_flags` are f_type, f_size and
-- f_flags. The last three are the bits of fts_options that options set.
pub record Settings : Type 0 where
  pub singlecol : Bool
  pub column : Bool
  pub columnacross : Bool
  pub longform : Bool
  pub stream : Bool
  pub statustime : Bool
  pub accesstime : Bool
  pub show_type : Bool
  pub recursive : Bool
  pub nosort : Bool
  pub listdot : Bool
  pub nonprint : Bool
  pub octal : Bool
  pub octal_escape : Bool
  pub listdir : Bool
  pub inode : Bool
  pub kflag : Bool
  pub humanize : Bool
  pub commas : Bool
  pub numericonly : Bool
  pub leafonly : Bool
  pub show_flags : Bool
  pub fullpath : Bool
  pub typedir : Bool
  pub reversesort : Bool
  pub show_size : Bool
  pub sectime : Bool
  pub whiteout : Bool
  pub grouponly : GroupOnly
  pub sortkey : SortKey
  pub blocksize : ℕ
  pub logical : Bool
  pub seedot : Bool
  pub xdev : Bool

-- The settings before the loop: on a terminal -Cq, elsewhere -1; and -A for root.
unfoldable pub defaults : Bool → Bool → Settings
defaults is_tty is_root = record {
  singlecol = not is_tty;
  column = is_tty;
  columnacross = false;
  longform = false;
  stream = false;
  statustime = false;
  accesstime = false;
  show_type = false;
  recursive = false;
  nosort = false;
  listdot = is_root;
  nonprint = is_tty;
  octal = false;
  octal_escape = false;
  listdir = false;
  inode = false;
  kflag = false;
  humanize = false;
  commas = false;
  numericonly = false;
  leafonly = false;
  show_flags = false;
  fullpath = false;
  typedir = false;
  reversesort = false;
  show_size = false;
  sectime = false;
  whiteout = false;
  grouponly = not_asked;
  sortkey = by_name;
  blocksize = 512;
  logical = false;
  seedot = false;
  xdev = false;
}

-- `if (f_grouponly != -1) f_grouponly = 1;`
abbrev pub ask_group : GroupOnly → GroupOnly
ask_group overruled = overruled
ask_group _ = asked

-- The switch on the option.
unfoldable pub apply_letter : Letter → Settings → Settings
apply_letter single_column s = record s {
  singlecol = true;
  column = false;
  columnacross = false;
  longform = false;
  stream = false;
}
apply_letter in_columns s = record s {
  column = true;
  columnacross = false;
  longform = false;
  singlecol = false;
  stream = false;
}
apply_letter without_owner s = record s {
  grouponly = ask_group s.grouponly;
  longform = true;
  column = false;
  columnacross = false;
  singlecol = false;
  stream = false;
}
apply_letter long_format s = record s {
  grouponly = overruled;
  longform = true;
  column = false;
  columnacross = false;
  singlecol = false;
  stream = false;
}
apply_letter stream_format s = record s {
  stream = true;
  column = false;
  columnacross = false;
  longform = false;
  singlecol = false;
}
apply_letter across s = record s {
  columnacross = true;
  column = false;
  longform = false;
  singlecol = false;
  stream = false;
}
apply_letter change_time s = record s { statustime = true; accesstime = false }
apply_letter access_time s = record s { accesstime = true; statustime = false }
apply_letter type_marks s = record s { show_type = true }
apply_letter follow_links s = record s { logical = true }
apply_letter recurse s = record s { recursive = true }
apply_letter unsorted s = record s { nosort = true; seedot = true; listdot = true }
apply_letter all_entries s = record s { seedot = true; listdot = true }
apply_letter almost_all s = record s { listdot = true }
apply_letter octal_bytes s = record s { nonprint = false; octal = true; octal_escape = false }
apply_letter octal_escapes s = record s { nonprint = false; octal = false; octal_escape = true }
apply_letter directories_themselves s = record s { listdir = true; recursive = false }
apply_letter inode_numbers s = record s { inode = true }
apply_letter kilobytes s = record s { blocksize = 1024; kflag = true; humanize = false }
apply_letter human_sizes s = record s { humanize = true; kflag = false; commas = false }
apply_letter with_commas s = record s { humanize = false; commas = true }
apply_letter numeric_ids s = record s {
  numericonly = true;
  longform = true;
  column = false;
  columnacross = false;
  singlecol = false;
  stream = false;
}
apply_letter leaf_names s = record s { leafonly = true }
apply_letter file_flags s = record s { show_flags = true }
apply_letter full_paths s = record s { fullpath = true }
apply_letter directory_marks s = record s { typedir = true }
apply_letter question_marks s = record s { nonprint = true; octal = false; octal_escape = false }
apply_letter reversed s = record s { reversesort = true }
apply_letter size_order s = record s { sortkey = by_size }
apply_letter sizes s = record s { show_size = true }
apply_letter full_times s = record s { sectime = true }
apply_letter time_order s = record s { sortkey = by_time }
apply_letter whiteouts s = record s { whiteout = true }
apply_letter raw_bytes s = record s { nonprint = false; octal = false; octal_escape = false }
apply_letter one_file_system s = record s { xdev = true }

-- The loop.
unfoldable pub apply_letters : List Letter → Settings → Settings
apply_letters [] s = s
apply_letters (l ∷ ls) s = apply_letters ls (apply_letter l s)
