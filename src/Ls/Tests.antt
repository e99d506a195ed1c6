-- ===== src/Ls/Tests.antt =====
-- Entries of a directory, and the comparisons on them.
use computer_science_notes.Base.{ℕ, true, false, none, some, List, [], ◌∷◌, ◌++◌, ◌≡◌, refl}
use computer_science_notes.Ls.Flags.{
  StatFlag, Flags, uf_append, uf_nodump, put, no_flags, flags_to_string, write_flags, write_flag,
  flag_name, string_to_flags,
}
use computer_science_notes.Ls.FlagTrip.{string_to_flags-flags_to_string}
use computer_science_notes.Base.Int.{pos, negsuc}
use computer_science_notes.Ls.Compare.{
  reverse_function, revmodcmp, by_key_reversed, revnamecmp, strcmp, fts_d, fts_ns, fts_other, Entry,
  Options, by_size, by_time, sortfcn,
}
use computer_science_notes.Ls.Keys.{negate, NotAfter}
use computer_science_notes.Ls.Order.{sortfcn_orders}

abbrev makefile : Entry
makefile = record {
  name = 77 ∷ 97 ∷ [];
  info = fts_other 8;
  at_root = true;
  mtime = pos 20;
  mtimensec = pos 5;
  atime = negsuc 3;
  atimensec = pos 0;
  ctime = pos 20;
  ctimensec = pos 5;
  size = pos 100;
}

-- A directory, written later in the same second.
abbrev source_dir : Entry
source_dir = record makefile { name = 115 ∷ []; info = fts_d; mtimensec = pos 9; size = pos 4096 }

abbrev unreadable : Entry
unreadable = record makefile { name = 77 ∷ 97 ∷ 98 ∷ []; info = fts_ns; mtimensec = pos 2 }

abbrev newest_last : Options
newest_last = record {
  reversesort = true;
  sortkey = by_time;
  accesstime = false;
  statustime = false;
  listdir = false;
}

abbrev largest_first : Options
largest_first = record newest_last { reversesort = false; sortkey = by_size }

sortfcn_orders_example :
    NotAfter (sortfcn newest_last unreadable source_dir)
    × (sortfcn newest_last source_dir unreadable
        ≡ negate (sortfcn newest_last unreadable source_dir))
unfolding sortfcn reverse_function revmodcmp by_key_reversed revnamecmp strcmp
sortfcn_orders_example = sortfcn_orders newest_last unreadable makefile source_dir tt tt

-- Not to be dumped, and only appended to.
abbrev log_flags : Flags
log_flags = put uf_nodump true (put uf_append true no_flags)

abbrev dash : List ℕ
dash = 45 ∷ []

written_flags : flags_to_string log_flags dash ≡ flag_name uf_append ++ 44 ∷ flag_name uf_nodump
unfolding flags_to_string write_flags write_flag
written_flags = refl

string_to_flags-flags_to_string_example :
    (set : Flags) × (clear : Flags) × (string_to_flags
        (flags_to_string log_flags dash)
        (record { set_flags = some no_flags; clear_flags = some log_flags })
      ≡ (none, record { set_flags = some set; clear_flags = some clear }))
    × ((g : StatFlag) → (set g ≡ log_flags g) × (clear g ≡ false))
string_to_flags-flags_to_string_example =
    string_to_flags-flags_to_string log_flags dash uf_append no_flags log_flags refl
