-- ===== src/Dtree/Invariant/Slots.antt =====
-- The operations on the cache keep its slots well formed and its watch descriptors unique.
use computer_science_notes.Base.{
  ℕ, zero, suc, ◌+◌, ◌≤◌, ◌≡◌, refl, true, false, none, some, [], ◌∷◌, ◌++◌, length, get_elem?, set,
  replicate, arith, map, sym, ap, ◌∙◌, take,
}
use computer_science_notes.Base.{find_index-eq-some, get_elem?-append-length}
use computer_science_notes.Base.Int.{pos, minus_one, is_nonneg}
use computer_science_notes.Dtree.Paths.{FilePath, in_subtree, join_path, slash}
use computer_science_notes.Dtree.Kernel.{Kernel}
use computer_science_notes.Dtree.State.{Watch, Cache}
use computer_science_notes.Dtree.Cache.{
  empty_watch, has_wd, find_watch, mark_cache_slot_empty, find_free, resize, fill_slot, uses,
  IsSlot, AllSlots, alloc_incr,
}
use computer_science_notes.Dtree.Cache.Lookup.{uses-set, uses-append, uses-replicate}
use computer_science_notes.Dtree.Subtree.{rewrite_slot, rewrite_cached_paths, zap_slots}
use computer_science_notes.Dtree.Invariant.Rules.{IsCache}

AllSlots-set : (c : Cache) (j : ℕ) (v : Watch) → AllSlots c → IsSlot v → AllSlots (set c j v)
AllSlots-set [] j v h hv = tt
AllSlots-set (w ∷ c) zero v h hv = (hv, h.1)
AllSlots-set (w ∷ c) (suc j) v h hv = (h.0, AllSlots-set c j v h.1 hv)

AllSlots-append : (c d : Cache) → AllSlots c → AllSlots d → AllSlots (c ++ d)
AllSlots-append [] d hc hd = hd
AllSlots-append (w ∷ c) d hc hd = (hc.0, AllSlots-append c d hc.1 hd)

AllSlots-replicate : (n : ℕ) → AllSlots (replicate n empty_watch)
AllSlots-replicate zero = tt
AllSlots-replicate (suc n) = (λ _. refl, AllSlots-replicate n)

uses-set_empty : (n j : ℕ) (c : Cache) → uses n (set c j empty_watch) ≤ uses n c
uses-set_empty n j [] = omega arith
uses-set_empty n zero (w ∷ c) = ground arith
uses-set_empty n (suc j) (w ∷ c) = ground (arith, uses-set_empty n j c)

-- Emptying a slot keeps the cache well formed.
pub mark_cache_slot_empty-IsCache :
    (j : ℕ) (c : Cache) → IsCache c → IsCache (mark_cache_slot_empty j c)
unfolding mark_cache_slot_empty
mark_cache_slot_empty-IsCache j c h = record {
  slots = AllSlots-set c j empty_watch h.slots (λ _. refl);
  unique = λ n. omega (arith, uses-set_empty n j c, h.unique n);
}

pub resize-IsCache : (c : Cache) → IsCache c → IsCache (resize c)
unfolding resize
resize-IsCache c h = record {
  slots = AllSlots-append c _ h.slots (AllSlots-replicate alloc_incr);
  unique = λ n. omega (
    arith,
    uses-append n c (replicate alloc_incr empty_watch),
    uses-replicate n alloc_incr,
    h.unique n,
  );
}

-- A free slot takes a watch descriptor that the cache does not hold yet.
pub fill_slot-IsCache :
    (slot n : ℕ) (path : FilePath) (c : Cache) (old : Watch)
    → get_elem? c slot ≡ some old
    → uses n c ≡ 0
    → IsCache c
    → IsCache (fill_slot slot n path c)
unfolding fill_slot
fill_slot-IsCache slot n path c old e u h = record {
  slots = AllSlots-set c slot _ h.slots (λ q. cc);
  unique =
      λ m. ground (arith, uses-set m slot old (record { wd = pos n; path = path }) c e, h.unique m);
}

pub find_free-eq-some :
    (c : Cache) (slot : ℕ)
    → find_free c ≡ some slot
    → (old : Watch) × (get_elem? c slot ≡ some old) × (has_wd minus_one old ≡ true)
unfolding find_free
find_free-eq-some c slot h = find_index-eq-some (has_wd minus_one) c slot h

-- The first slot that a resize adds is free.
pub resize-free : (c : Cache) → get_elem? (resize c) (length c) ≡ some empty_watch
unfolding resize
resize-free c = get_elem?-append-length c (replicate 199 empty_watch) empty_watch

pub find_watch-eq-none : (n : ℕ) (c : Cache) → find_watch (pos n) c ≡ none → uses n c ≡ 0
unfolding find_watch
find_watch-eq-none n [] h = refl
find_watch-eq-none n (w ∷ c) h = ground (arith, find_watch-eq-none n c)

rewrite_slot-wd : (size : ℕ) (a b : FilePath) (w : Watch) → (rewrite_slot size a b w).wd ≡ w.wd
unfolding rewrite_slot
rewrite_slot-wd size a b w = ground arith

in_subtree-nil : (x : ℕ) (root : FilePath) → in_subtree (x ∷ root) [] ≡ false
unfolding in_subtree
in_subtree-nil x root = refl

module _ (size x : ℕ) (a b : FilePath) where
  IsSlot-rewrite_slot : (w : Watch) → IsSlot w → IsSlot (rewrite_slot size (x ∷ a) b w)
  unfolding rewrite_slot in_subtree
  IsSlot-rewrite_slot w h q =
      let e = h (ap is_nonneg (sym (rewrite_slot-wd size (x ∷ a) b w)) ∙ q) in rw e refl

  AllSlots-rewrite : (c : Cache) → AllSlots c → AllSlots (map (rewrite_slot size (x ∷ a) b) c)
  AllSlots-rewrite [] h = tt
  AllSlots-rewrite (w ∷ c) h = (IsSlot-rewrite_slot w h.0, AllSlots-rewrite c h.1)

  uses-rewrite : (n : ℕ) (c : Cache) → uses n (map (rewrite_slot size (x ∷ a) b) c) ≡ uses n c
  uses-rewrite n [] = refl
  uses-rewrite n (w ∷ c) = rw (rewrite_slot-wd size (x ∷ a) b w, uses-rewrite n c) refl

join_path-cons :
    (size : ℕ) (prefix name : FilePath)
    → 2 ≤ size
    → (x : ℕ) × (rest : FilePath) × (join_path size prefix name ≡ x ∷ rest)
unfolding join_path
join_path-cons zero p name h = absurd (omega arith)
join_path-cons (suc zero) p name h = absurd (omega arith)
join_path-cons (suc (suc n)) [] name h = (slash, take n name, ground arith)
join_path-cons (suc (suc n)) (y ∷ p) name h = (y, take n (p ++ slash ∷ name), ground arith)

-- A rename keeps every slot's watch descriptor and does not touch the free slots.
pub rewrite_cached_paths-IsCache :
    (size : ℕ) (old_prefix old_name new_prefix new_name : FilePath) (c : Cache)
    → 2 ≤ size
    → IsCache c
    → IsCache (rewrite_cached_paths size old_prefix old_name new_prefix new_name c)
unfolding rewrite_cached_paths
rewrite_cached_paths-IsCache size op on np nn c h v =
    let (x, rest, e) = join_path-cons size op on h in
    let b = join_path size np nn in
    rw e (record {
      slots = AllSlots-rewrite size x rest b c v.slots;
      unique = λ n. rw (uses-rewrite size x rest b n c) (v.unique n);
    })

module _ (k : Kernel) (fd : ℕ) (pn : FilePath) where
  AllSlots-zap_slots :
      (cnt : ℕ) (w : k.World) (c : Cache) → AllSlots c → AllSlots (zap_slots k fd pn cnt w c).2
  unfolding zap_slots
  AllSlots-zap_slots cnt w [] h = tt
  AllSlots-zap_slots cnt w (x ∷ c) h = ground (
    arith,
    AllSlots-zap_slots cnt w c h.1,
    AllSlots-zap_slots (cnt + 1) (k.inotify_rm_watch w fd x.wd).1 c h.1,
  )

  uses-zap_slots :
      (n cnt : ℕ) (w : k.World) (c : Cache) → uses n (zap_slots k fd pn cnt w c).2 ≤ uses n c
  unfolding zap_slots
  uses-zap_slots n cnt w [] = omega arith
  uses-zap_slots n cnt w (x ∷ c) = ground (
    arith,
    uses-zap_slots n cnt w c,
    uses-zap_slots n (cnt + 1) (k.inotify_rm_watch w fd x.wd).1 c,
  )

  -- Zapping a subtree keeps the cache well formed, also where the loop breaks.
  pub zap_slots-IsCache :
      (cnt : ℕ) (w : k.World) (c : Cache) → IsCache c → IsCache (zap_slots k fd pn cnt w c).2
  zap_slots-IsCache cnt w c h = record {
    slots = AllSlots-zap_slots cnt w c h.slots;
    unique = λ n. omega (arith, uses-zap_slots n cnt w c, h.unique n);
  }
