-- ===== src/Dtree/Refine/Zap.antt =====
-- Zapping a subtree on the map: its descriptors go, all others stay, and the count is right.
use mathlib.Core.Path.{subst}
use computer_science_notes.Base.{
  ℕ, ◌+◌, ◌≤◌, ◌≡◌, refl, sym, ◌⊎◌, inl, inr, Bool, Bool-cases, true, false, Option, none, some, [],
  ◌∷◌, arith, if◌then◌else◌,
}
use computer_science_notes.Dtree.Paths.{FilePath, in_subtree, in_subtree_iff, Within, NoNul}
use computer_science_notes.Dtree.Kernel.{Kernel}
use computer_science_notes.Dtree.State.{Cache, Globals, done}
use computer_science_notes.Dtree.Cache.{is_used, lookup, uses}
use computer_science_notes.Dtree.Cache.Lookup.{lookup-none_iff}
use computer_science_notes.Dtree.Subtree.{zap_slots, zap_subtree}
use computer_science_notes.Dtree.Invariant.Rules.{IsSound}

-- The entry of a descriptor once the subtree is zapped.
abbrev zapped : FilePath → Option FilePath → Option FilePath
zapped pn none = none
zapped pn (some p) = if in_subtree pn p then none else some p

abbrev pub used_count : Cache → ℕ
used_count [] = 0
used_count (w ∷ c) = (if is_used w then 1 else 0) + used_count c

module _ (k : Kernel) (fd : ℕ) (pn : FilePath) where
  uses-zap :
      (m cnt : ℕ) (w : k.World) (c : Cache)
      → uses m c ≡ 0
      → uses m (zap_slots k fd pn cnt w c).2 ≡ 0
  unfolding zap_slots
  uses-zap m cnt w [] h = refl
  uses-zap m cnt w (x ∷ c) h =
      ground (arith, uses-zap m cnt w c, uses-zap m (cnt + 1) (k.inotify_rm_watch w fd x.wd).1 c)

  lookup-zap_slots :
      (m n cnt : ℕ) (w : k.World) (c : Cache)
      → uses m c ≤ 1
      → (zap_slots k fd pn cnt w c).0 ≡ some n
      → lookup m (zap_slots k fd pn cnt w c).2 ≡ zapped pn (lookup m c)
  unfolding zap_slots
  lookup-zap_slots m n cnt w [] u h = refl
  lookup-zap_slots m n cnt w (x ∷ c) u h = ground (
    arith,
    lookup-zap_slots m n cnt w c,
    lookup-zap_slots m n (cnt + 1) (k.inotify_rm_watch w fd x.wd).1 c,
    uses-zap m (cnt + 1) (k.inotify_rm_watch w fd x.wd).1 c,
    lookup-none_iff m c,
    lookup-none_iff m (zap_slots k fd pn (cnt + 1) (k.inotify_rm_watch w fd x.wd).1 c).2,
  )

  count-zap_slots :
      (n cnt : ℕ) (w : k.World) (c : Cache)
      → (zap_slots k fd pn cnt w c).0 ≡ some n
      → n + used_count (zap_slots k fd pn cnt w c).2 ≡ cnt + used_count c
  unfolding zap_slots
  count-zap_slots n cnt w [] h = ground arith
  count-zap_slots n cnt w (x ∷ c) h = ground (
    arith,
    count-zap_slots n cnt w c,
    count-zap_slots n (cnt + 1) (k.inotify_rm_watch w fd x.wd).1 c,
  )

  lookup-zap_slots_partly :
      (m cnt : ℕ) (w : k.World) (c : Cache)
      → uses m c ≤ 1
      → let d = (zap_slots k fd pn cnt w c).2 in
        (lookup m d ≡ lookup m c) ⊎ (lookup m d ≡ zapped pn (lookup m c))
  unfolding zap_slots
  lookup-zap_slots_partly m cnt w [] u = inl refl
  lookup-zap_slots_partly m cnt w (x ∷ c) u = ground (
    arith,
    lookup-zap_slots_partly m cnt w c,
    lookup-zap_slots_partly m (cnt + 1) (k.inotify_rm_watch w fd x.wd).1 c,
    uses-zap m (cnt + 1) (k.inotify_rm_watch w fd x.wd).1 c,
    lookup-none_iff m c,
    lookup-none_iff m (zap_slots k fd pn (cnt + 1) (k.inotify_rm_watch w fd x.wd).1 c).2,
  )

abbrev ZappedByTest : FilePath → Cache → Option ℕ → Cache → Type 0
ZappedByTest pn c (some n) d =
    ((m : ℕ) → lookup m d ≡ zapped pn (lookup m c)) × (n + used_count d ≡ used_count c)
ZappedByTest pn c none d =
    (m : ℕ) → (lookup m d ≡ lookup m c) ⊎ (lookup m d ≡ zapped pn (lookup m c))

zap_subtree_by_test :
    {k : Kernel} (fd : ℕ) (path : FilePath) (s : Globals k)
    → IsSound s
    → (r : Option ℕ) × (t : Globals k) × (zap_subtree fd path s ≡ done r t)
      × ZappedByTest path s.cache r t.cache
unfolding zap_subtree
zap_subtree_by_test {k} fd path s h = (_, _, refl, go _ refl)
  where
    go :
        (r : Option ℕ)
        → (zap_slots k fd path 0 s.world s.cache).0 ≡ r
        → ZappedByTest path s.cache r (zap_slots k fd path 0 s.world s.cache).2
    go (some n) e = (
      λ m. lookup-zap_slots k fd path m n 0 s.world s.cache (h.0.unique m) e,
      omega (arith, count-zap_slots k fd path n 0 s.world s.cache e),
    )
    go none e = λ m. lookup-zap_slots_partly k fd path m 0 s.world s.cache (h.0.unique m)

-- What zapping the subtree at `root` makes of the pathname of a descriptor: none where it is the
-- root's or one below it, and the same elsewhere.
pub data Pruned (root p : FilePath) (q : Option FilePath) : Type 0 where
  inside : Within root p → q ≡ none → Pruned root p q
  outside : ¬ Within root p → q ≡ some p → Pruned root p q

zapped-Pruned : (root p : FilePath) → NoNul p → Pruned root p (zapped root (some p))
zapped-Pruned root p nul = elim (Bool-cases (in_subtree root p)) [
  | inl e ↦ inside ((in_subtree_iff root p nul).0 e) (rw e refl)
  | inr e ↦ outside (λ i. absurd (test_fails ((in_subtree_iff root p nul).1 i) e)) (rw e refl)
]
  where
    test_fails : {b : Bool} → b ≡ true → b ≡ false → ⊥
    test_fails e f = ground arith

-- The same for a descriptor that may have no pathname.
abbrev pub PrunedAt : FilePath → Option FilePath → Option FilePath → Type 0
PrunedAt root none q = q ≡ none
PrunedAt root (some p) q = Pruned root p q

-- What zapSubtree() leaves behind, by its result: of the entry `o` of a descriptor it makes `q`, and
-- the caches before and after have so many slots in use.
abbrev pub Zapped : FilePath → Option ℕ → Option FilePath → Option FilePath → ℕ → ℕ → Type 0
Zapped root (some n) o q before after = PrunedAt root o q × (n + after ≡ before)
Zapped root none o q before after = (q ≡ o) ⊎ PrunedAt root o q

-- No pathname of the entry holds a NUL.
abbrev pub NoNulIn : Option FilePath → Type 0
NoNulIn none = Unit
NoNulIn (some p) = NoNul p

zapped-PrunedAt :
    (root : FilePath) (o q : Option FilePath) → NoNulIn o → q ≡ zapped root o → PrunedAt root o q
zapped-PrunedAt root none q nul e = e
zapped-PrunedAt root (some p) q nul e = subst (Pruned root p) (sym e) (zapped-Pruned root p nul)

-- zapSubtree() returns. For every descriptor whose pathname, if it has one, holds no NUL: where no
-- inotify_rm_watch() fails, it has no pathname afterwards if its pathname is the root of the subtree
-- or lies below it, keeps any other pathname and gets none otherwise, and the result counts the
-- slots that were emptied. Where one fails, the entry is either as before or pruned so.
pub zap_subtree_lem :
    {k : Kernel} (fd : ℕ) (path : FilePath) (s : Globals k) (m : ℕ)
    → IsSound s
    → NoNulIn (lookup m s.cache)
    → (r : Option ℕ) × (t : Globals k) × (zap_subtree fd path s ≡ done r t)
      × Zapped path r
          (lookup m s.cache)
          (lookup m t.cache)
          (used_count s.cache)
          (used_count t.cache)
zap_subtree_lem {k} fd path s m h nul =
    let (r, t, e, z) = zap_subtree_by_test fd path s h in (r, t, e, go r t.cache z)
  where
    go :
        (r : Option ℕ) (d : Cache)
        → ZappedByTest path s.cache r d
        → Zapped path r (lookup m s.cache) (lookup m d) (used_count s.cache) (used_count d)
    go (some n) d z = (zapped-PrunedAt path (lookup m s.cache) (lookup m d) nul (z.0 m), z.1)
    go none d z = elim (z m) [
      | inl same ↦ inl same
      | inr cut ↦ inr (zapped-PrunedAt path (lookup m s.cache) (lookup m d) nul cut)
    ]
