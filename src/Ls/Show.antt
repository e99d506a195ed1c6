-- ===== src/Ls/Show.antt =====
-- display() and traverse() of ls.c. The traversal by fts is a parameter.
use computer_science_notes.Base.{
  ℕ, zero, suc, Bool, true, false, not, ◌&&◌, ◌||◌, Option, none, some, List, [], ◌∷◌, ◌++◌, ◌==◌,
  if◌then◌else◌,
}
use mathlib.Core.Option
use computer_science_notes.Ls.Options.{Settings}
use computer_science_notes.Ls.Choices.{print_function, PrintFunction}
use computer_science_notes.Ls.Escape.{Locale}
use computer_science_notes.Ls.Listed.{Listed, Display}
use computer_science_notes.Ls.Columns.{printscol, printcol, printacol, printstream}
use computer_science_notes.Ls.Measure.{
  is_hidden, mark_all, count_all, make_display, Totals, no_totals,
}
use computer_science_notes.Ls.Long.{Outside, printlong}

-- What stays the same in a call of ls: the parameters, the settings, the width of the terminal, and
-- whether the table for printcol() can be had.
pub record Setup : Type 1 where
  pub locale : Locale
  pub settings : Settings
  pub outside : Outside
  pub termwidth : ℕ
  pub has_table : Bool

-- The output so far, `output`, and whether `rval` is EXIT_FAILURE.
pub record Progress : Type 0 where
  pub text : List ℕ
  pub output : Bool
  pub failed : Bool

abbrev pub first_at_root : List Listed → Bool
first_at_root [] = false
first_at_root (p ∷ _) = p.entry.at_root

-- (*printfcn)(&d)
unfoldable pub print_with : PrintFunction → Setup → Display → List ℕ → List Listed → Option (List ℕ)
print_with PrintFunction.printscol c d parent ps =
    some (printscol c.locale c.settings d (first_at_root ps) ps)
print_with PrintFunction.printacol c d parent ps =
    some (printacol c.locale c.settings d (first_at_root ps) c.termwidth ps)
print_with PrintFunction.printlong c d parent ps =
    some (printlong c.locale c.settings c.outside d (first_at_root ps) parent ps)
print_with PrintFunction.printstream c d parent ps =
    some (printstream c.locale c.settings d (first_at_root ps) c.termwidth ps)
print_with PrintFunction.printcol c d parent ps =
    printcol c.locale c.settings d (first_at_root ps) c.termwidth c.has_table ps

-- display() behind its loop.
unfoldable pub show_marked : Setup → List ℕ → List Listed → Totals → Progress → Option Progress
show_marked c parent ps t g =
    if t.entries == 0
    then some (record g { failed = g.failed || t.failed })
    else Option.map
        (λ text. record { text = g.text ++ text; output = true; failed = g.failed || t.failed })
        (print_with (print_function c.settings) c (make_display c.settings t) parent ps)

-- display(): `is_arguments` says that the parent is NULL, and `parent` is its fts_accpath else.
unfoldable pub display : Setup → Bool → List ℕ → List Listed → Progress → Option Progress
display c is_arguments parent [] g = some g
display c is_arguments parent (p ∷ ps) g =
    show_marked c parent (mark_all c.locale c.settings is_arguments (p ∷ ps))
      (count_all c.locale c.settings is_arguments (p ∷ ps) no_totals) g

-- What fts_read() gives: FTS_DC; FTS_DNR or FTS_ERR; FTS_D with the level, the name, the paths and
-- the children; another file; or the end, with errno.
pub data Visit : Type 0 where
  cycle : Visit
  unreadable : Visit
  directory_visit : (at_root : Bool) (name path accpath : List ℕ) (children : List Listed) → Visit
  other_visit : Visit
  finished : (error : Bool) → Visit

-- fts_read() and fts_set() with FTS_SKIP.
pub record Traversal : Type 1 where
  pub State : Type 0
  pub read : State → Visit × State
  pub skip : State → State

-- The heading of a directory.
unfoldable pub heading : Settings → Bool → List ℕ → Progress → Progress
heading s several path g =
    if s.leafonly
    then g
    else if g.output
    then record g { text = g.text ++ 10 ∷ (path ++ 58 ∷ 10 ∷ []) }
    else if several
    then record g { text = g.text ++ path ++ 58 ∷ 10 ∷ []; output = true }
    else g

abbrev pub is_empty : List Listed → Bool
is_empty [] = true
is_empty (_ ∷ _) = false

module _ (c : Setup) (t : Traversal) (several : Bool) where
  -- The body of traverse()'s loop behind fts_read(), where `again` is the next round; `none` is a read
  -- outside the table of printcol(). `several` says that there is more than one argument.
  unfoldable pub visit :
      (t.State → Progress → Option Progress) → Visit × t.State → Progress → Option Progress
  visit again (cycle, st) g = again st g
  visit again (unreadable, st) g = again st (record g { failed = true })
  visit again (other_visit, st) g = again st g
  visit again (finished error, st) g = some (record g { failed = g.failed || error })
  visit again (directory_visit at_root name path accpath children, st) g =
      if not at_root && is_hidden name && not c.settings.listdot
      then again st g
      else elim (display c false accpath children (heading c.settings several path g)) [
        | none ↦ none
        | some g' ↦
            again (if not c.settings.recursive && not (is_empty children) then t.skip st else st) g'
      ]

  -- The loop, for at most `fuel` files; what it has then printed where these are not enough.
  unfoldable pub traverse_loop : ℕ → t.State → Progress → Option Progress
  traverse_loop zero st g = some g
  traverse_loop (suc fuel) st g = visit (traverse_loop fuel) (t.read st) g

  -- traverse(), with the list of the arguments.
  unfoldable pub traverse : ℕ → List Listed → t.State → Option Progress
  traverse fuel arguments st =
      elim (display c true [] arguments (record { text = []; output = false; failed = false })) [
        | none ↦ none
        | some g ↦ if c.settings.listdir then some g else traverse_loop fuel st g
      ]
