-- ===== src/Dtree/Refine/Rename.antt =====
-- A rename on the map: the pathnames of the subtree get the new prefix, all else stays.
use mathlib.Core.Option
use computer_science_notes.Base.{
  ℕ, ◌+◌, ◌-◌, ◌≤◌, ◌≡◌, refl, inl, inr, true, false, some, [], ◌∷◌, ◌++◌, length, arith,
  if◌then◌else◌, Bool-cases, map, take, drop, take_of_length-le, drop-append_self, length-append,
  ap, ◌∙◌, sym, append-nil,
}
use computer_science_notes.Dtree.Paths.{
  FilePath, slash, in_subtree, join_path, copy_path, in_subtree-append, in_subtree_self,
  in_subtree_iff, Within, NoNul,
}
use computer_science_notes.Dtree.State.{Watch, Cache}
use computer_science_notes.Dtree.Cache.{lookup}
use computer_science_notes.Dtree.Subtree.{rewrite_slot, rewrite_cached_paths}

-- The pathname that a slot gets.
abbrev moved : ℕ → FilePath → FilePath → FilePath → FilePath
moved size full_path new_prefix p =
    if in_subtree full_path p
    then copy_path size (take (size - 1) (new_prefix ++ drop (length full_path) p))
    else p

lookup-map_rewrite :
    (m size : ℕ) (a b : FilePath) (c : Cache)
    → lookup m (map (rewrite_slot size a b) c) ≡ Option.map (moved size a b) (lookup m c)
unfolding rewrite_slot
lookup-map_rewrite m size a b [] = refl
lookup-map_rewrite m size a b (w ∷ c) = ground (arith, lookup-map_rewrite m size a b c)

-- snprintf(buf, size, ...) does not cut the string.
abbrev Fits : ℕ → FilePath → Type 0
Fits size p = length p + 1 ≤ size

moved_outside : (size : ℕ) (a b p : FilePath) → in_subtree a p ≡ false → moved size a b p ≡ p
moved_outside size a b p h = rw h

moved_within :
    (size : ℕ) (a b rest : FilePath)
    → in_subtree a (a ++ rest) ≡ true
    → Fits size (b ++ rest)
    → moved size a b (a ++ rest) ≡ b ++ rest
unfolding copy_path
moved_within size a b rest h f =
    rw (h, drop-append_self a rest, take_of_length-le (size - 1) (b ++ rest) (omega arith))
      (take_of_length-le size (b ++ rest) (omega arith))

-- What can follow the root of a subtree in a pathname.
pub data IsTail : FilePath → Type 0 where
  at_root : IsTail []
  deeper : (rest : FilePath) → IsTail (slash ∷ rest)

in_subtree_of_IsTail : (a rest : FilePath) → IsTail rest → in_subtree a (a ++ rest) ≡ true
in_subtree_of_IsTail a [] at_root = rw append-nil (in_subtree_self a)
in_subtree_of_IsTail a (c ∷ rest) (deeper _) = in_subtree-append a rest

IsTail-of_Within : (a p : FilePath) → Within a p → (rest : FilePath) × (p ≡ a ++ rest) × IsTail rest
IsTail-of_Within a p (Within.itself e) = ([], e ∙ sym (append-nil a), at_root)
IsTail-of_Within a p (Within.below rest e) = (slash ∷ rest, e, deeper rest)

not_in_subtree : (a p : FilePath) → NoNul p → ¬ Within a p → in_subtree a p ≡ false
not_in_subtree a p nul out = elim (Bool-cases (in_subtree a p)) [
  | inl e ↦ absurd (out ((in_subtree_iff a p nul).0 e))
  | inr e ↦ e
]

join_path-Fits :
    (size : ℕ) (prefix name : FilePath)
    → Fits size (prefix ++ slash ∷ name)
    → join_path size prefix name ≡ prefix ++ slash ∷ name
unfolding join_path
join_path-Fits size prefix name f =
    take_of_length-le (size - 1) (prefix ++ slash ∷ name) (omega arith)

-- After the rename of `old_prefix/old_name` to `new_prefix/new_name`, where no string is cut, the
-- descriptor of the renamed directory, and of any directory below it, has its pathname with the new
-- prefix.
pub rewrite_cached_paths_within :
    (m size : ℕ) (old_prefix old_name new_prefix new_name rest : FilePath) (c : Cache)
    → Fits size (old_prefix ++ slash ∷ old_name)
    → Fits size (new_prefix ++ slash ∷ new_name)
    → Fits size ((new_prefix ++ slash ∷ new_name) ++ rest)
    → IsTail rest
    → lookup m c ≡ some ((old_prefix ++ slash ∷ old_name) ++ rest)
    → lookup m (rewrite_cached_paths size old_prefix old_name new_prefix new_name c)
      ≡ some ((new_prefix ++ slash ∷ new_name) ++ rest)
unfolding rewrite_cached_paths
rewrite_cached_paths_within m size op on np nn rest c fo fn fit tail e =
    let a : FilePath = op ++ slash ∷ on in
    let b : FilePath = np ++ slash ∷ nn in
    rw (join_path-Fits size op on fo, join_path-Fits size np nn fn)
      (lookup-map_rewrite m size a b c
        ∙ ap (Option.map (moved size a b)) e
        ∙ ap some (moved_within size a b rest (in_subtree_of_IsTail a rest tail) fit))

-- After the rename a descriptor whose pathname is neither that of the renamed directory nor below
-- it has the same pathname, where the old and the new name are not cut and the pathname holds no
-- NUL.
pub rewrite_cached_paths_outside :
    (m size : ℕ) (old_prefix old_name new_prefix new_name p : FilePath) (c : Cache)
    → Fits size (old_prefix ++ slash ∷ old_name)
    → Fits size (new_prefix ++ slash ∷ new_name)
    → NoNul p
    → ¬ Within (old_prefix ++ slash ∷ old_name) p
    → lookup m c ≡ some p
    → lookup m (rewrite_cached_paths size old_prefix old_name new_prefix new_name c) ≡ some p
unfolding rewrite_cached_paths
rewrite_cached_paths_outside m size op on np nn p c fo fn nul out e =
    let a : FilePath = op ++ slash ∷ on in
    let b : FilePath = np ++ slash ∷ nn in
    rw (join_path-Fits size op on fo, join_path-Fits size np nn fn)
      (lookup-map_rewrite m size a b c
        ∙ ap (Option.map (moved size a b)) e
        ∙ ap some (moved_outside size a b p (not_in_subtree a p nul out)))

-- What a rename of directory `a` to `b` makes of a pathname: the new prefix, at `a` and below it; and
-- nothing elsewhere.
pub data Renamed (size : ℕ) (a b p q : FilePath) : Type 0 where
  within :
      (rest : FilePath)
      → IsTail rest
      → Fits size (b ++ rest)
      → p ≡ a ++ rest
      → q ≡ b ++ rest
      → Renamed size a b p q
  outside : NoNul p → ¬ Within a p → q ≡ p → Renamed size a b p q

-- After a rename in which no string is cut, each descriptor has what the rename makes of its
-- pathname: the new prefix at the renamed directory and below it, the same pathname elsewhere.
pub rewrite_cached_paths_lem :
    (m size : ℕ) (old_prefix old_name new_prefix new_name p q : FilePath) (c : Cache)
    → Fits size (old_prefix ++ slash ∷ old_name)
    → Fits size (new_prefix ++ slash ∷ new_name)
    → Renamed size (old_prefix ++ slash ∷ old_name) (new_prefix ++ slash ∷ new_name) p q
    → lookup m c ≡ some p
    → lookup m (rewrite_cached_paths size old_prefix old_name new_prefix new_name c) ≡ some q
rewrite_cached_paths_lem m size op on np nn p q c fo fn (within rest tail fit e d) h =
    rewrite_cached_paths_within m size op on np nn rest c fo fn fit tail (h ∙ ap some e)
    ∙ ap some (sym d)
rewrite_cached_paths_lem m size op on np nn p q c fo fn (outside nul out d) h =
    rewrite_cached_paths_outside m size op on np nn p c fo fn nul out h ∙ ap some (sym d)

-- A pathname that a rename and its reverse bring back: no NUL, short enough under either prefix,
-- and not yet under the new one.
pub record IsMovable (size : ℕ) (new_path : FilePath) (p : FilePath) : Type 0 where
  pub no_nul : NoNul p
  pub fits : Fits size p
  pub fits_moved : Fits size (new_path ++ p)
  pub elsewhere : in_subtree new_path p ≡ false

moved_back_within :
    (size : ℕ) (a b p rest : FilePath)
    → p ≡ a ++ rest
    → IsTail rest
    → IsMovable size b p
    → moved size b a (moved size a b p) ≡ p
moved_back_within size a b p rest e tail h =
    let there : moved size a b p ≡ b ++ rest =
      ap (moved size a b) e
      ∙ moved_within size a b rest (in_subtree_of_IsTail a rest tail) (
          omega (
            arith,
            h.fits_moved,
            ap length e,
            length-append a rest,
            length-append b rest,
            length-append b p,
          )) in
    let back =
      moved_within size b a rest (in_subtree_of_IsTail b rest tail)
        (omega (arith, h.fits, ap length e)) in
    ap (moved size b a) there ∙ back ∙ sym e

moved_back :
    (size : ℕ) (a b p : FilePath) → IsMovable size b p → moved size b a (moved size a b p) ≡ p
moved_back size a b p h = elim (Bool-cases (in_subtree a p)) [
  | inl e ↦
      let (rest, q, tail) = IsTail-of_Within a p ((in_subtree_iff a p h.no_nul).0 e) in
      moved_back_within size a b p rest q tail h
  | inr e ↦ ap (moved size b a) (moved_outside size a b p e) ∙ moved_outside size b a p h.elsewhere
]

rewrite_slot_lem :
    (size : ℕ) (a b : FilePath) (w : Watch)
    → rewrite_slot size a b w ≡ record w { path = moved size a b w.path }
unfolding rewrite_slot
rewrite_slot_lem size a b w = ground arith

abbrev pub AllMovable : ℕ → FilePath → Cache → Type 0
AllMovable size b [] = Unit
AllMovable size b (w ∷ c) = IsMovable size b w.path × AllMovable size b c

rewrite_back :
    (size : ℕ) (a b : FilePath) (c : Cache)
    → AllMovable size b c
    → map (rewrite_slot size b a) (map (rewrite_slot size a b) c) ≡ c
rewrite_back size a b [] h = refl
rewrite_back size a b (w ∷ c) h =
    let slot : rewrite_slot size b a (rewrite_slot size a b w) ≡ w =
      ap (rewrite_slot size b a) (rewrite_slot_lem size a b w)
      ∙ rewrite_slot_lem size b a _
      ∙ ap (λ p. record w { path = p }) (moved_back size a b w.path h.0) in
    cc (slot, rewrite_back size a b c h.1)

-- A rename followed by its reverse restores the cache, slot by slot, where both new pathnames fit
-- in a buffer and no cached pathname held a NUL, was too long or already lay under the new name.
pub rewrite_cached_paths_round_trip :
    (size : ℕ) (old_prefix old_name new_prefix new_name : FilePath) (c : Cache)
    → Fits size (old_prefix ++ slash ∷ old_name)
    → Fits size (new_prefix ++ slash ∷ new_name)
    → AllMovable size (new_prefix ++ slash ∷ new_name) c
    → rewrite_cached_paths size new_prefix new_name old_prefix old_name
        (rewrite_cached_paths size old_prefix old_name new_prefix new_name c)
      ≡ c
unfolding rewrite_cached_paths
rewrite_cached_paths_round_trip size op on np nn c fo fn h =
    rw (join_path-Fits size op on fo, join_path-Fits size np nn fn)
      (rewrite_back size (op ++ slash ∷ on) (np ++ slash ∷ nn) c h)
