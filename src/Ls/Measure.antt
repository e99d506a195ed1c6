-- ===== src/Ls/Measure.antt =====
-- display() of ls.c: which files of a list are printed, and the widths of the fields.
use computer_science_notes.Base.{
  ℕ, ◌+◌, ◌-◌, ◌/◌, ◌%◌, ◌^◌, Bool, true, false, not, ◌&&◌, ◌||◌, Option, none, some, List, [], ◌∷◌,
  length, max, ltb, ◌==◌, if◌then◌else◌,
}
use computer_science_notes.Base.Int.{ℤ, pos, negsuc}
use computer_science_notes.Ls.Compare.{fts_d, fts_err, fts_ns, same_info}
use computer_science_notes.Ls.Flags.{flags_to_string}
use computer_science_notes.Ls.Options.{Settings}
use computer_science_notes.Ls.Escape.{Locale}
use computer_science_notes.Ls.Listed.{
  Listed, Display, FileType, device, decimal, howmany, to_unsigned,
}

-- The variables of display() behind its loop. Sums are taken modulo 2^64.
pub record Totals : Type 0 where
  pub maxlen : ℕ
  pub maxblock : ℕ
  pub maxinode : ℕ
  pub maxnlink : ℕ
  pub maxsize : ℕ
  pub maxmajor : ℕ
  pub maxminor : ℕ
  pub bcfile : Bool
  pub btotal : ℕ
  pub stotal : ℕ
  pub maxuser : ℕ
  pub maxgroup : ℕ
  pub maxflags : ℕ
  pub entries : ℕ
  pub failed : Bool  -- rval = EXIT_FAILURE

abbrev pub no_totals : Totals
no_totals = record {
  maxlen = 0;
  maxblock = 0;
  maxinode = 0;
  maxnlink = 0;
  maxsize = 0;
  maxmajor = 0;
  maxminor = 0;
  bcfile = false;
  btotal = 0;
  stotal = 0;
  maxuser = 0;
  maxgroup = 0;
  maxflags = 0;
  entries = 0;
  failed = false;
}

abbrev pub is_hidden : List ℕ → Bool
is_hidden [] = false
is_hidden (c ∷ _) = c == 46

-- `if (sp->st_size > maxsize) maxsize = sp->st_size;`
abbrev pub larger_size : ℕ → ℤ → ℕ
larger_size n (pos m) = max n m
larger_size n (negsuc _) = n

abbrev pub is_device : FileType → Bool
is_device device = true
is_device _ = false

abbrev pub or_number : ℕ → Option (List ℕ) → List ℕ
or_number n none = decimal n
or_number n (some name) = name

unfoldable pub cannot_stat : Listed → Bool
cannot_stat cur = same_info cur.entry.info fts_err || same_info cur.entry.info fts_ns

-- Whether a file is left out that can be read: `is_arguments` says that the parent is NULL.
unfoldable pub is_left_out : Settings → Bool → Listed → Bool
is_left_out s is_arguments cur =
    if is_arguments
    then same_info cur.entry.info fts_d && not s.listdir
    else is_hidden cur.entry.name && not s.listdot

unfoldable pub needs_stats : Settings → Bool
needs_stats s = s.inode || s.longform || s.show_size

module _ (k : Locale) (s : Settings) where
  -- The texts of the NAMES of a file.
  unfoldable pub owner_name : Listed → List ℕ
  owner_name cur = or_number cur.uid (if s.numericonly then none else k.user_from_uid cur.uid)

  unfoldable pub group_name : Listed → List ℕ
  group_name cur = or_number cur.gid (if s.numericonly then none else k.group_from_gid cur.gid)

  unfoldable pub flags_name : Listed → List ℕ
  flags_name cur = if s.show_flags then flags_to_string cur.st_flags (45 ∷ []) else []

  -- What the loop does with a file, or leaves out of it.
  unfoldable pub mark : Bool → Listed → Listed
  mark is_arguments cur =
      if cannot_stat cur || is_left_out s is_arguments cur
      then record cur { no_print = true }
      else if needs_stats s && s.longform
      then record cur { user = owner_name cur; group = group_name cur; flags = flags_name cur }
      else cur

  -- The lengths of the names, and the numbers of a device.
  unfoldable pub count_names : Listed → Totals → Totals
  count_names cur t =
      if s.longform
      then record t {
        maxuser = max t.maxuser (length (owner_name cur));
        maxgroup = max t.maxgroup (length (group_name cur));
        maxflags = max t.maxflags (length (flags_name cur));
      }
      else t

  unfoldable pub count_device : Listed → Totals → Totals
  count_device cur t =
      if is_device cur.kind
      then record t {
        bcfile = true;
        maxmajor = max t.maxmajor cur.major;
        maxminor = max t.maxminor cur.minor;
      }
      else t

  unfoldable pub count_stats : Listed → Totals → Totals
  count_stats cur t =
      if needs_stats s
      then count_names cur (
          count_device cur (record t {
            maxblock = max t.maxblock cur.blocks;
            maxinode = max t.maxinode cur.ino;
            maxnlink = max t.maxnlink cur.nlink;
            maxsize = larger_size t.maxsize cur.entry.size;
            btotal = (t.btotal + cur.blocks) % 2 ^ 64;
            stotal = (t.stotal + to_unsigned cur.entry.size) % 2 ^ 64;
          }))
      else t

  -- A round of the loop, on the variables.
  unfoldable pub count_file : Bool → Listed → Totals → Totals
  count_file is_arguments cur t =
      if cannot_stat cur
      then record t { failed = true }
      else if is_left_out s is_arguments cur
      then t
      else count_stats cur
          (record t { maxlen = max t.maxlen (length cur.entry.name); entries = t.entries + 1 })

  -- The loop: the marked list, and the variables.
  unfoldable pub mark_all : Bool → List Listed → List Listed
  mark_all is_arguments [] = []
  mark_all is_arguments (cur ∷ list) = mark is_arguments cur ∷ mark_all is_arguments list

  unfoldable pub count_all : Bool → List Listed → Totals → Totals
  count_all is_arguments [] t = t
  count_all is_arguments (cur ∷ list) t =
      count_all is_arguments list (count_file is_arguments cur t)

-- The width of a number with or without commas, or for a human.
unfoldable pub number_width : Settings → ℕ → ℕ
number_width s n =
    if s.humanize
    then 4
    else length (decimal n) + (if s.commas then (length (decimal n) - 1) / 3 else 0)

-- The widths of the major and the minor number and of the size, where the list has a device.
unfoldable pub fit_devices : ℕ → ℕ → ℕ → ℕ × ℕ × ℕ
fit_devices s_major s_minor s_size =
    if ltb s_size (s_major + s_minor + 2)
    then (s_major, s_minor, s_major + s_minor + 2)
    else if ltb (s_major + s_minor + 2) s_size
    then (s_size - s_minor - 2, s_minor, s_size)
    else (s_major, s_minor, s_size)

unfoldable pub device_widths : Settings → Totals → ℕ × ℕ × ℕ
device_widths s t =
    if t.bcfile
    then fit_devices (length (decimal t.maxmajor)) (length (decimal t.maxminor))
        (number_width s t.maxsize)
    else (0, 0, number_width s t.maxsize)

-- The DISPLAY that is handed to the print function. The fields that C leaves unset where no stat()
-- information is needed, and then does not use, are 0.
unfoldable pub make_display : Settings → Totals → Display
make_display s t =
    if needs_stats s
    then record {
      btotal = t.btotal;
      stotal = t.stotal;
      entries = t.entries;
      maxlen = t.maxlen;
      s_block = number_width s (howmany t.maxblock s.blocksize);
      s_flags = t.maxflags;
      s_group = t.maxgroup;
      s_inode = length (decimal t.maxinode);
      s_nlink = length (decimal t.maxnlink);
      s_size = (device_widths s t).2;
      s_user = t.maxuser;
      s_major = (device_widths s t).0;
      s_minor = (device_widths s t).1;
    }
    else record {
      btotal = 0;
      stotal = 0;
      entries = t.entries;
      maxlen = t.maxlen;
      s_block = 0;
      s_flags = 0;
      s_group = 0;
      s_inode = 0;
      s_nlink = 0;
      s_size = 0;
      s_user = 0;
      s_major = 0;
      s_minor = 0;
    }
