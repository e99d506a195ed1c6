-- ===== src/Dtree/Tests.antt =====
-- inotify_dtree.c on a small file system: every directory has one subdirectory `x`, watch
-- descriptors are handed out in order, and no system call fails.
use computer_science_notes.Dtree.Refine.Zap.{used_count}
use computer_science_notes.Base.{
  ℕ, ◌+◌, ◌≡◌, refl, true, false, Option, none, some, [], ◌∷◌, ◌++◌, length, arith, if◌then◌else◌,
  ◌==◌,
}
use computer_science_notes.Base.Int.{pos}
use computer_science_notes.Dtree.Paths.{FilePath, slash, Within, copy_path}
use computer_science_notes.Dtree.Kernel.{Kernel, Stat, Mask, Event, added, end_of_file}
use computer_science_notes.Dtree.State.{Cache, Globals, done, ◌>>◌}
use computer_science_notes.Dtree.Cache.{lookup}
use computer_science_notes.Dtree.Slots.{add_watch_to_cache, check_cache_consistency}
use computer_science_notes.Dtree.Subtree.{zap_subtree, rewrite_cached_paths}
use computer_science_notes.Dtree.Events
use computer_science_notes.Dtree.Reader.{process_buffer}
use computer_science_notes.Dtree.Main.{initial, set_up, serve_rounds}
use computer_science_notes.Dtree.Invariant.Rules.{Post, Holds, IsSound}
use computer_science_notes.Dtree.Invariant.Start.{main_loop_IsSound}
use computer_science_notes.Dtree.Consumed.{Returned}
use computer_science_notes.Dtree.Progress.{process_next_inotify_event-Returned}
use computer_science_notes.Dtree.Ending.{bytes, process_buffer_ends}
use computer_science_notes.Dtree.Refine.Add.{add_watch_to_cache_lem}
use computer_science_notes.Dtree.Refine.Rename.{rewrite_cached_paths_lem, Renamed}
use computer_science_notes.Dtree.Refine.Zap.{Zapped, zap_subtree_lem}
use computer_science_notes.Dtree.Check.{check_cache_consistency-AllUsed}

abbrev directory : Stat
directory = record { is_dir = true; ino = 1; dev = 2 }

abbrev toy : Kernel
toy = record {
  World = ℕ;
  path_max = 64;
  name_max = 16;
  event_size = 16;
  alloc = λ w n. (true, w);
  lstat = λ w p. some (record { is_dir = true; ino = length p; dev = 2 });
  inotify_init = λ w. (some 3, w);
  close = λ w fd. w;
  inotify_add_watch = λ w fd p b. (added w, w + 1);
  inotify_rm_watch = λ w fd wd. (true, w);
  nftw = λ w p. ((p, directory) ∷ (p ++ slash ∷ b'x' ∷ [], directory) ∷ [], false);
  read_events = λ w fd n. (end_of_file, w);
  read_line = λ w n. (none, w);
  scan_command = λ line. (b'c', none);
  atoi = λ p. pos 0;
  fopen = λ w p. (true, w);
  select = λ w fd. (some (false, false), w);
}

abbrev root_a : FilePath
root_a = b'a' ∷ []

abbrev root_b : FilePath
root_b = b'b' ∷ []

-- Two watches, on a and on a/x.
abbrev two_watches : Cache
two_watches =
    record { wd = pos 1; path = root_a }
    ∷ record { wd = pos 2; path = b'a' ∷ slash ∷ b'x' ∷ [] }
    ∷ []

abbrev watching_a : Globals toy
watching_a = record (initial 3) { cache = two_watches; root_dir_paths = some root_a ∷ [] }

watching_a-IsSound : IsSound watching_a
watching_a-IsSound = (
  record { slots = (λ q. cc, (λ q. cc, tt)); unique = λ n. ground arith },
  record { counted = refl; some_left = omega arith },
)

main_loop_IsSound_example :
    Holds IsSound ((set_up {k = toy} [] (root_a ∷ root_b ∷ []) >> serve_rounds 2 9) (initial 1))
main_loop_IsSound_example = main_loop_IsSound toy (omega arith) [] (root_a ∷ root_b ∷ []) 2 9 1

abbrev no_bits : Mask
no_bits = record {
  is_dir = false;
  create = false;
  delete_self = false;
  move_self = false;
  moved_from = false;
  moved_to = false;
  ignored = false;
  q_overflow = false;
  unmount = false;
}

-- A rename of a/x to a/y, as the kernel reports it.
abbrev from_x : Event
from_x = record {
  wd = pos 1;
  mask = record no_bits { is_dir = true; moved_from = true };
  cookie = 7;
  len = 16;
  name = b'x' ∷ [];
}

abbrev to_y : Event
to_y = record {
  wd = pos 1;
  mask = record no_bits { is_dir = true; moved_to = true };
  cookie = 7;
  len = 16;
  name = b'y' ∷ [];
}

process_buffer_ends_example :
    Post
      (λ b _. b ≡ true)
      (process_buffer 2
        (record {
          events = from_x ∷ to_y ∷ [];
          remaining = bytes toy (from_x ∷ to_y ∷ []);
          first_try = true;
        })
        watching_a)
unfolding Events.branch_of
process_buffer_ends_example =
    process_buffer_ends toy (from_x ∷ to_y ∷ []) true 2 watching_a (omega arith) (omega arith)
      (λ e. cc) (omega arith)

process_next_inotify_event-Returned_example :
    Post
      (λ r t. Returned toy from_x (to_y ∷ []) 64 true watching_a.reinit_cnt t.reinit_cnt r)
      (Events.process_next_inotify_event from_x (to_y ∷ []) 64 true watching_a)
process_next_inotify_event-Returned_example =
    process_next_inotify_event-Returned {k = toy} from_x (to_y ∷ []) 64 true watching_a

zap_subtree_lem_example :
    (r : Option ℕ) × (t : Globals toy) × (zap_subtree 3 root_a watching_a ≡ done r t)
    × Zapped root_a r
        (lookup 1 two_watches)
        (lookup 1 t.cache)
        (used_count two_watches)
        (used_count t.cache)
zap_subtree_lem_example =
    zap_subtree_lem {k = toy} 3 root_a watching_a 1 watching_a-IsSound (omega arith)

-- The sibling /ab of the renamed /a.
not-Within_a : ¬ Within (slash ∷ b'a' ∷ []) (slash ∷ b'a' ∷ b'b' ∷ [])
not-Within_a (Within.itself e) = cc
not-Within_a (Within.below rest e) = ground arith

-- The sibling /ab keeps its name.
rewrite_cached_paths_lem_example :
    lookup 2 (
      rewrite_cached_paths 64 [] root_a [] root_b
        (record { wd = pos 2; path = slash ∷ b'a' ∷ b'b' ∷ [] } ∷ []))
    ≡ some (slash ∷ b'a' ∷ b'b' ∷ [])
rewrite_cached_paths_lem_example =
    rewrite_cached_paths_lem 2 64 [] root_a [] root_b (slash ∷ b'a' ∷ b'b' ∷ [])
      (slash ∷ b'a' ∷ b'b' ∷ []) (record { wd = pos 2; path = slash ∷ b'a' ∷ b'b' ∷ [] } ∷ [])
      (omega arith) (omega arith) (Renamed.outside (omega arith) not-Within_a refl) refl

add_watch_to_cache_lem_example :
    Post
      (λ slot t.
        (m : ℕ)
        → lookup m t.cache ≡ (if 3 == m then some (copy_path 64 root_b) else lookup m two_watches))
      (add_watch_to_cache {k = toy} 3 root_b watching_a)
add_watch_to_cache_lem_example = add_watch_to_cache_lem {k = toy} 3 root_b watching_a refl

check_cache_consistency-AllUsed_example : check_cache_consistency watching_a ≡ done tt watching_a
check_cache_consistency-AllUsed_example =
    check_cache_consistency-AllUsed watching_a (refl, (refl, tt))
