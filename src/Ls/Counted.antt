-- ===== src/Ls/Counted.antt =====
-- What display() of ls.c has counted of the files that it leaves to be printed.
use computer_science_notes.Base.{
  ◌≤◌, ◌≡◌, Bool, true, false, Bool-cases, inl, inr, List, [], ◌∷◌, length, arith,
}
use computer_science_notes.Ls.Options.{Settings}
use computer_science_notes.Ls.Escape.{Locale}
use computer_science_notes.Ls.Listed.{Listed}
use computer_science_notes.Ls.Columns.{printed}
use computer_science_notes.Ls.Measure.{
  Totals, needs_stats, mark, mark_all, count_file, count_stats, count_device, count_names,
  count_all,
}
use computer_science_notes.Ls.Texts.{All}

-- display() has counted a file: its name and numbers are within the totals.
abbrev pub Counted : Settings → Totals → Listed → Type 0
Counted s t p =
    (length p.entry.name ≤ t.maxlen)
    × (needs_stats s ≡ true → (p.ino ≤ t.maxinode) × (p.blocks ≤ t.maxblock))

module _ (k : Locale) (s : Settings) where
  pub count_file-grows :
      (is_arguments : Bool) (cur : Listed) (t : Totals)
      → (t.maxlen ≤ (count_file k s is_arguments cur t).maxlen)
        × (t.maxinode ≤ (count_file k s is_arguments cur t).maxinode)
        × (t.maxblock ≤ (count_file k s is_arguments cur t).maxblock)
  unfolding count_file count_stats count_device count_names
  count_file-grows is_arguments cur t = ground arith

  pub count_all-grows :
      (is_arguments : Bool) (list : List Listed) (t : Totals)
      → (t.maxlen ≤ (count_all k s is_arguments list t).maxlen)
        × (t.maxinode ≤ (count_all k s is_arguments list t).maxinode)
        × (t.maxblock ≤ (count_all k s is_arguments list t).maxblock)
  unfolding count_all
  count_all-grows is_arguments [] t = ground arith
  count_all-grows is_arguments (cur ∷ list) t = omega (
    arith,
    count_file-grows is_arguments cur t,
    count_all-grows is_arguments list (count_file k s is_arguments cur t),
  )

  pub count_file-Counted :
      (is_arguments : Bool) (cur : Listed) (t : Totals)
      → (mark k s is_arguments cur).no_print ≡ false
      → Counted s (count_file k s is_arguments cur t) (mark k s is_arguments cur)
  unfolding count_file count_stats count_device count_names mark
  count_file-Counted is_arguments cur t h = ground arith

  pub Counted-printed :
      (is_arguments : Bool) (list : List Listed) (t : Totals)
      → All
          (Counted s (count_all k s is_arguments list t))
          (printed (mark_all k s is_arguments list))
  unfolding count_all mark_all printed
  Counted-printed is_arguments [] t = tt
  Counted-printed is_arguments (cur ∷ list) t =
      elim (Bool-cases (mark k s is_arguments cur).no_print) [
        | inl hidden ↦
            rw (hidden, All) (Counted-printed is_arguments list (count_file k s is_arguments cur t))
        | inr shown ↦
            rw (shown, All)
              (
                grind (
                  arith,
                  count_file-Counted is_arguments cur t shown,
                  count_all-grows is_arguments list (count_file k s is_arguments cur t),
                ),
                Counted-printed is_arguments list (count_file k s is_arguments cur t),
              )
      ]
