-- ===== src/Dtree/Slots.antt =====
-- The functions on the watch cache of inotify_dtree.c that call out, end the process or read a
-- slot.
use computer_science_notes.Base.{
  ℕ, suc, ◌+◌, true, false, Option, none, some, List, [], ◌∷◌, if◌then◌else◌, length, get_elem?,
}
use computer_science_notes.Base.Int.{ℤ}
use computer_science_notes.Dtree.Paths.{FilePath, copy_path}
use computer_science_notes.Dtree.Kernel.{Kernel, Stat}
use computer_science_notes.Dtree.State.{
  Watch, Cache, done, exited, aborted, undefined, M, ⊤, pure, gets, exit_failure, modify, ◌>>=◌,
  ◌>>◌, call,
}
use computer_science_notes.Dtree.Cache.{
  is_used, find_watch, mark_cache_slot_empty, find_free, resize, fill_slot, alloc_incr,
}

-- The entries that a listing of the cache prints, with their slots.
unfoldable pub used_entries : ℕ → Cache → List (ℕ × Watch)
used_entries j [] = []
used_entries j (w ∷ c) =
    let rest = used_entries (suc j) c in if is_used w then (j, w) ∷ rest else rest

module _ {k : Kernel} where
  -- `wlCache[slot].path`, where the slot may not have been assigned.
  unfoldable pub path_at : Option ℕ → M k FilePath
  path_at slot s = elim slot [
    | none ↦ undefined
    | some j ↦ elim (get_elem? s.cache j) [ none ↦ undefined | some w ↦ done w.path s ]
  ]

  -- freeCache()
  unfoldable pub free_cache : M k ⊤
  free_cache = modify λ s. record s { cache = [] }

  -- dumpCacheToLog(): the lines that it writes. With no log file it writes to a NULL stream.
  unfoldable pub dump_cache_to_log : M k (List (ℕ × Watch))
  dump_cache_to_log s = if s.has_log then done (used_entries 0 s.cache) s else undefined

  -- createStopFileAndAbort()
  unfoldable pub create_stop_file_and_abort : {A : Type 0} → M k A
  create_stop_file_and_abort = dump_cache_to_log >> (λ s. aborted)

  -- The loop of checkCacheConsistency(): `sb` is `none` until lstat() first fills it.
  unfoldable pub check_slots : Option Stat → ℕ → Cache → M k ℕ
  check_slots sb failures [] s = done failures s
  check_slots sb failures (w ∷ c) s = elim (is_used w) [
    | true ↦ elim (k.lstat s.world w.path) [
      | none ↦ check_slots sb (failures + 1) c s
      | some st ↦ check_slots (some st) failures c s
    ]
    | false ↦ elim sb [
      | none ↦ undefined
      | some st ↦ elim st.is_dir [
        | true ↦ check_slots (some st) failures c s
        | false ↦ exited false
      ]
    ]
  ]

  -- checkCacheConsistency()
  unfoldable pub check_cache_consistency : M k ⊤
  check_cache_consistency = do c ← gets (λ s. s.cache); check_slots none 0 c; pure tt

  -- findWatchChecked(): `none` is the -1.
  unfoldable pub find_watch_checked : ℤ → M k (Option ℕ)
  find_watch_checked wd s = elim (find_watch wd s.cache) [
    | some slot ↦ done (some slot) s
    | none ↦ if s.abort_on_cache_problem then create_stop_file_and_abort s else done none s
  ]

  -- findEmptyCacheSlot()
  unfoldable pub find_empty_cache_slot : M k ℕ
  find_empty_cache_slot s = elim (find_free s.cache) [
    | some slot ↦ done slot s
    | none ↦
        (do
          ok ← call (λ w. k.alloc w (length s.cache + alloc_incr))
          if ok then modify (λ t. record t { cache = resize t.cache }) else exit_failure
          pure (length s.cache))
          s
  ]

  -- addWatchToCache()
  unfoldable pub add_watch_to_cache : ℕ → FilePath → M k ℕ
  add_watch_to_cache wd pathname = do
    slot ← find_empty_cache_slot
    modify (λ s. record s { cache = fill_slot slot wd (copy_path k.path_max pathname) s.cache })
    pure slot

  -- markCacheSlotEmpty() of a slot that may not have been assigned.
  unfoldable pub mark_empty : Option ℕ → M k ⊤
  mark_empty slot s = elim slot [
    | none ↦ undefined
    | some j ↦ done tt (record s { cache = mark_cache_slot_empty j s.cache })
  ]
