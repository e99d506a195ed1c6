-- ===== src/Ls/Tally.antt =====
-- What display() of ls.c counts, and the table that printcol() of print.c builds with it.
use computer_science_notes.Base.{
  ℕ, ◌+◌, ◌≤◌, ◌≡◌, Bool, true, false, ◌||◌, List, [], ◌∷◌, length, arith,
}
use computer_science_notes.Ls.Compare.{Info, fts_ns, fts_err, same_info}
use computer_science_notes.Ls.Options.{Settings}
use computer_science_notes.Ls.Escape.{Locale}
use computer_science_notes.Ls.Listed.{Listed}
use computer_science_notes.Ls.Columns.{printed}
use computer_science_notes.Ls.Measure.{
  Totals, no_totals, cannot_stat, mark, mark_all, count_file, count_stats, count_device,
  count_names, count_all,
}

-- Whether fts says that it could not examine an entry: FTS_NS or FTS_ERR.
abbrev pub is_unknown : Info → Bool
is_unknown fts_ns = true
is_unknown fts_err = true
is_unknown _ = false

-- Whether a list has such an entry.
abbrev pub has_unknown : List Listed → Bool
has_unknown [] = false
has_unknown (cur ∷ list) = is_unknown cur.entry.info || has_unknown list

cannot_stat-is_unknown : (cur : Listed) → cannot_stat cur ≡ is_unknown cur.entry.info
unfolding cannot_stat
cannot_stat-is_unknown cur = by_info cur.entry.info
  where
    by_info : (i : Info) → (same_info i fts_err || same_info i fts_ns) ≡ is_unknown i
    by_info i = ground arith

abbrev weight : Bool → ℕ
weight true = 0
weight false = 1

length-printed :
    (p : Listed) (ps : List Listed)
    → length (printed (p ∷ ps)) ≡ weight p.no_print + length (printed ps)
unfolding printed
length-printed p ps = ground arith

module _ (k : Locale) (s : Settings) where
  count_file-tallies :
      (is_arguments : Bool) (cur : Listed) (t : Totals)
      → (t.entries + weight (mark k s is_arguments cur).no_print
          ≤ (count_file k s is_arguments cur t).entries)
        × ((count_file k s is_arguments cur t).failed ≡ (t.failed || is_unknown cur.entry.info))
  unfolding count_file count_stats count_device count_names mark
  count_file-tallies is_arguments cur t = ground (arith, cannot_stat-is_unknown cur)

  count_all-tallies :
      (is_arguments : Bool) (list : List Listed) (t : Totals)
      → (t.entries + length (printed (mark_all k s is_arguments list))
          ≤ (count_all k s is_arguments list t).entries)
        × ((count_all k s is_arguments list t).failed ≡ (t.failed || has_unknown list))
  unfolding count_all mark_all printed
  count_all-tallies is_arguments [] t = ground arith
  count_all-tallies is_arguments (cur ∷ list) t = ground (
    arith,
    length-printed (mark k s is_arguments cur) (mark_all k s is_arguments list),
    count_file-tallies is_arguments cur t,
    count_all-tallies is_arguments list (count_file k s is_arguments cur t),
  )

  -- For every list: the files that the print functions go on to print are at most the entries that
  -- display() has counted, so the table of printcol(), which has an element for each entry, holds them
  -- all; and display() makes the exit value a failure exactly where an entry has
  -- FTS_NS or FTS_ERR.
  pub display_tallies :
      (is_arguments : Bool) (list : List Listed)
      → (length (printed (mark_all k s is_arguments list))
          ≤ (count_all k s is_arguments list no_totals).entries)
        × ((count_all k s is_arguments list no_totals).failed ≡ has_unknown list)
  display_tallies is_arguments list =
      let whole = count_all-tallies is_arguments list no_totals in (omega (arith, whole.0), whole.1)
