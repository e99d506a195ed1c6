-- ===== src/Dtree/Cache.antt =====
-- The watch cache of inotify_dtree.c: an array of slots that is searched linearly.
pub mod Lookup
use mathlib.Core.Option
use computer_science_notes.Base.{
  ℕ, ◌+◌, ◌*◌, ◌≡◌, Bool, true, false, ◌&&◌, Option, none, some, List, [], ◌∷◌, ◌++◌, if◌then◌else◌,
  length, get_elem?, set, replicate, find_index, suc, zero,
}
use computer_science_notes.Base.Int.{ℤ, pos, negsuc, minus_one, ◌==ℤ◌, is_nonneg}
use computer_science_notes.Dtree.Paths.{FilePath, str_eq}
use computer_science_notes.Dtree.State.{Watch, Cache}

-- What markCacheSlotEmpty() writes.
abbrev pub empty_watch : Watch
empty_watch = record { wd = minus_one; path = [] }

-- `wlCache[j].wd >= 0`
abbrev pub is_used : Watch → Bool
is_used w = is_nonneg w.wd

abbrev pub has_wd : ℤ → Watch → Bool
has_wd wd w = w.wd ==ℤ wd

-- findWatch()
unfoldable pub find_watch : ℤ → Cache → Option ℕ
find_watch wd c = find_index (has_wd wd) c

-- markCacheSlotEmpty()
unfoldable pub mark_cache_slot_empty : ℕ → Cache → Cache
mark_cache_slot_empty slot c = set c slot empty_watch

abbrev pub alloc_incr : ℕ
alloc_incr = 200

-- The loop of findEmptyCacheSlot().
unfoldable pub find_free : Cache → Option ℕ
find_free c = find_index (has_wd minus_one) c

-- The resized array, its new slots marked empty.
unfoldable pub resize : Cache → Cache
resize c = c ++ replicate alloc_incr empty_watch

-- The write of addWatchToCache().
unfoldable pub fill_slot : ℕ → ℕ → FilePath → Cache → Cache
fill_slot slot wd path c = set c slot (record { wd = pos wd; path = path })

-- pathnameToCacheSlot()
unfoldable pub pathname_to_cache_slot : FilePath → Cache → Option ℕ
pathname_to_cache_slot pathname c = find_index (λ w. is_used w && str_eq w.path pathname) c

-- pathnameInCache()
unfoldable pub pathname_in_cache : FilePath → Cache → Bool
pathname_in_cache pathname c = elim (pathname_to_cache_slot pathname c) [
  | none ↦ false
  | some _ ↦ true
]

-- The cache as the map that it stands for, from watch descriptors to pathnames.
abbrev pub lookup : ℕ → Cache → Option FilePath
lookup n [] = none
lookup n (w ∷ c) = if has_wd (pos n) w then some w.path else lookup n c

-- In how many slots a watch descriptor stands.
abbrev pub slot_uses : ℕ → Watch → ℕ
slot_uses n w = if has_wd (pos n) w then 1 else 0

abbrev pub uses : ℕ → Cache → ℕ
uses n [] = 0
uses n (w ∷ c) = slot_uses n w + uses n c

-- A slot is in use, or it is as markCacheSlotEmpty() leaves it.
abbrev pub IsSlot : Watch → Type 0
IsSlot w = is_used w ≡ false → w ≡ empty_watch

abbrev pub AllSlots : Cache → Type 0
AllSlots [] = Unit
AllSlots (w ∷ c) = IsSlot w × AllSlots c
