-- ===== src/Ls/Traversed.antt =====
-- traverse() of ls ends, and with it ls_main() as a whole.
use computer_science_notes.Ls.Main.{listed}
use computer_science_notes.Ls.Main.{known_letters}
use computer_science_notes.Ls.Options.{Letter}
use computer_science_notes.Ls.Main.{Surroundings}
use computer_science_notes.Ls.Long.{Outside}
use computer_science_notes.Ls.Main.{list_files, ls_main}
use computer_science_notes.Ls.Show.{is_empty}
use computer_science_notes.Ls.Measure.{is_hidden}
use computer_science_notes.Ls.Main.{setup_of}
use mathlib.Core.Path.{subst}
use computer_science_notes.Base.{map, ◌∙◌}
use computer_science_notes.Base.{
  ℕ, zero, suc, ◌≤◌, ◌≡◌, refl, ap, Bool, true, false, not, ◌||◌, ◌&&◌, Bool-cases, inl, inr,
  Option, some, List, [], ◌∷◌, ◌++◌, ◌==◌, if◌then◌else◌, arith,
}
use mathlib.Core.Option
use computer_science_notes.Ls.Choices.{PrintFunction, print_function}
use computer_science_notes.Ls.Escape.{Locale}
use computer_science_notes.Ls.Listed.{Listed, Display}
use computer_science_notes.Ls.Measure.{Totals, make_display}
use computer_science_notes.Ls.Sheet.{printcol_lem}
use computer_science_notes.Ls.Show.{
  Setup, Progress, print_with, show_marked, display, Visit, cycle, unreadable, directory_visit,
  other_visit, finished, Traversal, heading, visit, traverse_loop, traverse,
}

-- The print functions never read outside the table of printcol().
print_with_returns :
    (f : PrintFunction) (c : Setup) (d : Display) (parent : List ℕ) (ps : List Listed)
    → (text : List ℕ) × (print_with f c d parent ps ≡ some text)
unfolding print_with
print_with_returns PrintFunction.printscol c d parent ps = (_, refl)
print_with_returns PrintFunction.printacol c d parent ps = (_, refl)
print_with_returns PrintFunction.printlong c d parent ps = (_, refl)
print_with_returns PrintFunction.printstream c d parent ps = (_, refl)
print_with_returns PrintFunction.printcol c d parent ps = (_, printcol_lem _ _ d _ _ _ ps)

show_marked_returns :
    (c : Setup) (parent : List ℕ) (ps : List Listed) (t : Totals) (g : Progress)
    → (g' : Progress) × (show_marked c parent ps t g ≡ some g')
unfolding show_marked
show_marked_returns c parent ps t g = elim (Bool-cases (t.entries == 0)) [
  | inl e ↦ (record g { failed = g.failed || t.failed }, rw e refl)
  | inr e ↦
      let (text, h) =
        print_with_returns (print_function c.settings) c (make_display c.settings t) parent ps in
      (
        record { text = g.text ++ text; output = true; failed = g.failed || t.failed },
        rw e (rw h refl),
      )
]

display_returns :
    (c : Setup) (is_arguments : Bool) (parent : List ℕ) (ps : List Listed) (g : Progress)
    → (g' : Progress) × (display c is_arguments parent ps g ≡ some g')
unfolding display
display_returns c is_arguments parent [] g = (g, refl)
display_returns c is_arguments parent (p ∷ ps) g = show_marked_returns c parent _ _ g

-- traverse() from a listing that goes on.
visit_returns :
    (c : Setup) (t : Traversal) (several : Bool)
    → (again : t.State → Progress → Option Progress)
    → ((st : t.State) (g : Progress) → (g' : Progress) × (again st g ≡ some g'))
    → (v : Visit × t.State) (g : Progress)
    → (g' : Progress) × (visit c t several again v g ≡ some g')
unfolding visit
visit_returns c t several again goes (cycle, st) g = goes st g
visit_returns c t several again goes (unreadable, st) g = goes st (record g { failed = true })
visit_returns c t several again goes (other_visit, st) g = goes st g
visit_returns c t several again goes (finished error, st) g =
    (record g { failed = g.failed || error }, refl)
visit_returns c t several again goes (directory_visit at_root name path accpath children, st) g =
    elim (Bool-cases (not at_root && is_hidden name && not c.settings.listdot)) [
      | inl e ↦ let (g', h) = goes st g in (g', rw e h)
      | inr e ↦
          let (g1, h1) =
            display_returns c false accpath children (heading c.settings several path g) in
          let (g2, h2) =
            goes (if not c.settings.recursive && not (is_empty children) then t.skip st else st)
              g1 in
          (g2, rw e (rw h1 h2))
    ]

traverse_loop_returns :
    (c : Setup) (t : Traversal) (several : Bool) (fuel : ℕ) (st : t.State) (g : Progress)
    → (g' : Progress) × (traverse_loop c t several fuel st g ≡ some g')
unfolding traverse_loop
traverse_loop_returns c t several zero st g = (g, refl)
traverse_loop_returns c t several (suc fuel) st g =
    visit_returns c t several (traverse_loop c t several fuel)
      (traverse_loop_returns c t several fuel) (t.read st) g

either_some :
    (b : Bool) (g1 : Progress) (o : Option Progress)
    → (g2 : Progress) × (o ≡ some g2)
    → (g : Progress) × ((if b then some g1 else o) ≡ some g)
either_some true g1 o h = (g1, refl)
either_some false g1 o h = h

traverse_returns :
    (c : Setup) (t : Traversal) (several : Bool) (fuel : ℕ) (arguments : List Listed) (st : t.State)
    → (g : Progress) × (traverse c t several fuel arguments st ≡ some g)
unfolding traverse
traverse_returns c t several fuel arguments st =
    let (g1, h1) =
      display_returns c true [] arguments (record { text = []; output = false; failed = false }) in
    let (g, h) =
      either_some c.settings.listdir g1 (traverse_loop c t several fuel st g1)
        (traverse_loop_returns c t several fuel st g1) in
    (g, rw (h1, traverse) h)

abbrev is_finished : Visit → Bool
is_finished (finished _) = true
is_finished _ = false

-- The state of fts behind a round.
abbrev next_state : (c : Setup) (t : Traversal) → Visit → t.State → t.State
next_state c t (directory_visit at_root name path accpath children) st =
    if not at_root && is_hidden name && not c.settings.listdot
    then st
    else if not c.settings.recursive && not (is_empty children)
    then t.skip st
    else st
next_state c t _ st = st

-- Whether fts comes to its end within so many reads, when traverse() reads and skips.
abbrev pub finishes : (c : Setup) (t : Traversal) → ℕ → t.State → Bool
finishes c t zero st = false
finishes c t (suc n) st =
    is_finished (t.read st).0 || finishes c t n (next_state c t (t.read st).0 (t.read st).1)

visit_same :
    (c : Setup) (t : Traversal) (several : Bool)
    (again again' : t.State → Progress → Option Progress) (v : Visit) (st : t.State) (g : Progress)
    → (is_finished v ≡ false
        → (g' : Progress) → again (next_state c t v st) g' ≡ again' (next_state c t v st) g')
    → visit c t several again (v, st) g ≡ visit c t several again' (v, st) g
unfolding visit
visit_same c t several again again' cycle st g h = h refl g
visit_same c t several again again' unreadable st g h = h refl (record g { failed = true })
visit_same c t several again again' other_visit st g h = h refl g
visit_same c t several again again' (finished error) st g h = refl
visit_same c t several again again' (directory_visit at_root name path accpath children) st g h =
    elim (Bool-cases (not at_root && is_hidden name && not c.settings.listdot)) [
      | inl e ↦ rw e (subst (λ s. again s g ≡ again' s g) (rw e refl) (h refl g))
      | inr e ↦
          let (g1, h1) =
            display_returns c false accpath children (heading c.settings several path g) in
          rw e (rw h1 (subst (λ s. again s g1 ≡ again' s g1) (rw e refl) (h refl g1)))
    ]

traverse_loop_same :
    (c : Setup) (t : Traversal) (several : Bool) (n fuel : ℕ) (st : t.State) (g : Progress)
    → finishes c t n st ≡ true
    → n ≤ fuel
    → traverse_loop c t several fuel st g ≡ traverse_loop c t several n st g
unfolding traverse_loop
traverse_loop_same c t several zero fuel st g h le = absurd (ground arith)
traverse_loop_same c t several (suc n) zero st g h le = absurd (omega arith)
traverse_loop_same c t several (suc n) (suc fuel) st g h le =
    visit_same c t several (traverse_loop c t several fuel) (traverse_loop c t several n)
      (t.read st).0 (t.read st).1 g
      (λ more g'.
        traverse_loop_same c t several n fuel (next_state c t (t.read st).0 (t.read st).1) g'
          (ground (arith, h, more)) (omega arith))

traverse_same :
    (c : Setup) (t : Traversal) (several : Bool) (n fuel : ℕ) (arguments : List Listed)
    (st : t.State)
    → finishes c t n st ≡ true
    → n ≤ fuel
    → traverse c t several fuel arguments st ≡ traverse c t several n arguments st
unfolding traverse
traverse_same c t several n fuel arguments st h le =
    let (g1, h1) =
      display_returns c true [] arguments (record { text = []; output = false; failed = false }) in
    rw (h1, traverse)
      (ap (λ r. if c.settings.listdir then some g1 else r)
        (traverse_loop_same c t several n fuel st g1 h le))

known_letters-map-some : (ls : List Letter) → known_letters (map some ls) ≡ some ls
unfolding known_letters
known_letters-map-some [] = refl
known_letters-map-some (l ∷ ls) = ap (Option.map (λ rest. l ∷ rest)) (known_letters-map-some ls)

-- For all known options, all files, and the window and COLUMNS as they may be, whether or not
-- realloc() gives printcol() its table: where fts comes to its end within `n` reads, ls_main() ends
-- within as many rounds of its loop, more rounds change nothing, and no listing reads outside the table.
pub ls_main_ends :
    (k : Locale) (o : Outside) (e : Surroundings) (has_table : Bool) (t : Traversal) (n fuel : ℕ)
    (ls : List Letter) (several : Bool) (arguments : List Listed) (st : t.State)
    → finishes (setup_of k o e has_table t ls) t n st ≡ true
    → n ≤ fuel
    → (g : Progress) × (ls_main k o e has_table t n (map some ls) several arguments st
        ≡ some (listed g))
      × (ls_main k o e has_table t fuel (map some ls) several arguments st ≡ some (listed g))
unfolding ls_main list_files
ls_main_ends k o e has_table t n fuel ls several arguments st h le =
    let c = setup_of k o e has_table t ls in
    let (g, r) = traverse_returns c t several n arguments st in
    (
      g,
      rw (known_letters-map-some ls) (ap (Option.map listed) r),
      rw (known_letters-map-some ls)
          (ap (Option.map listed) (traverse_same c t several n fuel arguments st h le ∙ r)),
    )
