-- ===== src/Dtree/Rebuild.antt =====
-- The rebuilding of the cache in inotify_dtree.c does not depend on what the cache held.
use computer_science_notes.Base.{ℕ, ◌≡◌, refl, Option, none, some}
use computer_science_notes.Base.Int.{ℤ, pos, negsuc}
use computer_science_notes.Dtree.Kernel.{Kernel}
use computer_science_notes.Dtree.State.{Cache, Globals}
use computer_science_notes.Dtree.Slots.{free_cache}
use computer_science_notes.Dtree.Subtree.{rebuild, reinitialize, forget_descriptor}

module _ {k : Kernel} where
  rebuild-cache :
      (r : Option ℕ) (s : Globals k) (c : Cache) → rebuild r (record s { cache = c }) ≡ rebuild r s
  unfolding rebuild free_cache
  rebuild-cache none s c = refl
  rebuild-cache (some fd) s c = refl

  -- From any two caches reinitialize() ends the same way, in the same state.
  pub reinitialize-cache :
      (old : ℤ) (s : Globals k) (c : Cache)
      → reinitialize old (record s { cache = c }) ≡ reinitialize old s
  unfolding reinitialize forget_descriptor
  reinitialize-cache (pos n) s c = rebuild-cache _ _ c
  reinitialize-cache (negsuc n) s c = rebuild-cache _ _ c
