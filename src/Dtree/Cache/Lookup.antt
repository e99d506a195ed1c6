-- ===== src/Dtree/Cache/Lookup.antt =====
-- The operations of the cache on the map that it stands for.

use computer_science_notes.Base.{
  ℕ, ◌+◌, ◌≤◌, ◌≡◌, refl, true, none, some, [], ◌∷◌, ◌++◌, if◌then◌else◌, ◌==◌, get_elem?, set,
  replicate, suc, zero, arith,
}
use computer_science_notes.Base.Int.{pos, minus_one}
use computer_science_notes.Dtree.Paths.{FilePath}
use computer_science_notes.Dtree.State.{Watch, Cache}
use computer_science_notes.Dtree.Cache.{
  empty_watch, has_wd, mark_cache_slot_empty, fill_slot, lookup, slot_uses, uses,
}

pub uses-set :
    (m j : ℕ) (old v : Watch) (c : Cache)
    → get_elem? c j ≡ some old
    → uses m (set c j v) + slot_uses m old ≡ uses m c + slot_uses m v
uses-set m j old v [] h = ground arith
uses-set m zero old v (w ∷ c) h = ground arith
uses-set m (suc j) old v (w ∷ c) h = ground (arith, uses-set m j old v c h)

pub uses-replicate : (m i : ℕ) → uses m (replicate i empty_watch) ≡ 0
uses-replicate m zero = refl
uses-replicate m (suc i) = ground (arith, uses-replicate m i)

pub uses-append : (m : ℕ) (c d : Cache) → uses m (c ++ d) ≡ uses m c + uses m d
uses-append m [] d = ground arith
uses-append m (w ∷ c) d = ground (arith, uses-append m c d)

pub lookup-none_iff :
    (m : ℕ) (c : Cache) → (lookup m c ≡ none → uses m c ≡ 0) × (uses m c ≡ 0 → lookup m c ≡ none)
lookup-none_iff m [] = ground arith
lookup-none_iff m (w ∷ c) = ground (arith, lookup-none_iff m c)

pub lookup-fill_slot :
    (m n slot : ℕ) (path : FilePath) (c : Cache) (old : Watch)
    → get_elem? c slot ≡ some old
    → has_wd minus_one old ≡ true
    → uses n c ≡ 0
    → lookup m (fill_slot slot n path c) ≡ (if n == m then some path else lookup m c)
unfolding fill_slot
lookup-fill_slot m n slot path [] old h f u = ground arith
lookup-fill_slot m n zero path (w ∷ c) old h f u = ground arith
lookup-fill_slot m n (suc slot) path (w ∷ c) old h f u =
    ground (arith, lookup-fill_slot m n slot path c old h f)

pub lookup-mark_cache_slot_empty :
    (m n slot : ℕ) (c : Cache) (old : Watch)
    → get_elem? c slot ≡ some old
    → old.wd ≡ pos n
    → uses n c ≤ 1
    → lookup m (mark_cache_slot_empty slot c) ≡ (if n == m then none else lookup m c)
unfolding mark_cache_slot_empty
lookup-mark_cache_slot_empty m n slot [] old h f u = ground arith
lookup-mark_cache_slot_empty m n zero (w ∷ c) old h f u = ground (arith, lookup-none_iff m c)
lookup-mark_cache_slot_empty m n (suc slot) (w ∷ c) old h f u =
    ground
      (arith, lookup-mark_cache_slot_empty m n slot c old h f, uses-set n slot old empty_watch c h)

pub lookup-append : (m : ℕ) (c d : Cache) → uses m d ≡ 0 → lookup m (c ++ d) ≡ lookup m c
lookup-append m [] d h = (lookup-none_iff m d).1 h
lookup-append m (w ∷ c) d h = ground (arith, lookup-append m c d h)
