-- ===== src/Ls/Choices.antt =====
-- What ls_main() of ls.c makes of the options: the print function, and what decides on the order
-- and on fts.
use computer_science_notes.Ls.Options.{GroupOnly, asked, Settings}
use computer_science_notes.Base.{Bool, true, false, not, ◌&&◌, if◌then◌else◌}
use computer_science_notes.Ls.Compare.{SortKey, by_name, Options}

-- `if (f_grouponly == -1) f_grouponly = 0;`, and what f_grouponly says from there on.
abbrev pub group_only : GroupOnly → Bool
group_only asked = true
group_only _ = false

abbrev is_by_name : SortKey → Bool
is_by_name by_name = true
is_by_name _ = false

-- FTS_NOSTAT and FTS_COMFOLLOW.
unfoldable needs_no_stat : Settings → Bool
needs_no_stat s =
    not s.inode
    && not s.longform
    && not s.show_size
    && not s.show_type
    && not s.typedir
    && is_by_name s.sortkey

unfoldable follows_arguments : Settings → Bool
follows_arguments s = not s.longform && not s.listdir && not s.show_type

-- The functions that printfcn may point to.
pub data PrintFunction : Type 0 where
  printscol : PrintFunction
  printacol : PrintFunction
  printlong : PrintFunction
  printstream : PrintFunction
  printcol : PrintFunction

unfoldable pub print_function : Settings → PrintFunction
print_function s =
    if s.singlecol
    then printscol
    else if s.columnacross
    then printacol
    else if s.longform
    then printlong
    else if s.stream
    then printstream
    else printcol

-- The options that decide on the order.
unfoldable order_options : Settings → Options
order_options s = record {
  reversesort = s.reversesort;
  sortkey = s.sortkey;
  accesstime = s.accesstime;
  statustime = s.statustime;
  listdir = s.listdir;
}
