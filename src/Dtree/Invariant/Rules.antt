-- ===== src/Dtree/Invariant/Rules.antt =====
-- An invariant across calls that may end the process, and the invariant of inotify_dtree.c.
use computer_science_notes.Base.{
  ℕ, suc, ◌≤◌, ◌<◌, ◌≡◌, Bool, true, false, Option, none, some, List, [], ◌∷◌, length,
}
use computer_science_notes.Dtree.Paths.{FilePath}
use computer_science_notes.Dtree.Kernel.{Kernel}
use computer_science_notes.Dtree.State.{
  Cache, Globals, Outcome, done, exited, aborted, undefined, ⊤, M, ◌>>=◌, for_each, when,
}
use computer_science_notes.Dtree.Cache.{uses, AllSlots}

-- If the call returns, its result and the state that it leaves satisfy `P`.
abbrev pub Post : {S A : Type 0} → (A → S → Type 0) → Outcome S A → Type 0
Post P (done a s) = P a s
Post P (exited b) = Unit
Post P aborted = Unit
Post P undefined = Unit

abbrev pub Holds : {S A : Type 0} → (S → Type 0) → Outcome S A → Type 0
Holds I o = Post (λ _ s. I s) o

pub Post-bind :
    {S A B : Type 0} (P : A → S → Type 0) (Q : B → S → Type 0) (m : S → Outcome S A)
    (f : A → S → Outcome S B) (s : S)
    → Post P (m s)
    → ((a : A) (t : S) → P a t → Post Q (f a t))
    → Post Q ((m >>= f) s)
Post-bind {S} {A} {B} P Q m f s h hf = go (m s) h
  where
    go :
        (o : Outcome S A)
        → Post P o
        → Post Q (elim o as (λ _. Outcome S B) [
          | done a s' ↦ f a s'
          | exited b ↦ exited b
          | aborted ↦ aborted
          | undefined ↦ undefined
        ])
    go (done a t) p = hf a t p
    go (exited b) p = tt
    go aborted p = tt
    go undefined p = tt

abbrev pub Keeps : {S A : Type 0} → (S → Type 0) → (S → Outcome S A) → Type 0
Keeps I m = (s : _) → I s → Holds I (m s)

-- The slots are well formed, and no watch descriptor stands in two of them.
pub record IsCache (c : Cache) : Type 0 where
  pub slots : AllSlots c
  pub unique : (n : ℕ) → uses n c ≤ 1

abbrev pub nulls : List (Option FilePath) → ℕ
nulls [] = 0
nulls (none ∷ rs) = suc (nulls rs)
nulls (some _ ∷ rs) = nulls rs

-- The count of roots that are no longer watched is right, and some root still is.
pub record IsWatching (roots : List (Option FilePath)) (ignored : ℕ) : Type 0 where
  pub counted : nulls roots ≡ ignored
  pub some_left : ignored < length roots

abbrev pub IsSound : {k : Kernel} → Globals k → Type 0
IsSound g = IsCache g.cache × IsWatching g.root_dir_paths g.ignore_root_dirs

abbrev pub KeepsSound : (k : Kernel) {A : Type 0} → M k A → Type 0
KeepsSound k m = Keeps (IsSound {k = k}) m

module _ {S : Type 0} (I : S → Type 0) where
  pub Keeps-bind :
      {A B : Type 0} (m : S → Outcome S A) (f : A → S → Outcome S B)
      → Keeps I m
      → ((a : A) → Keeps I (f a))
      → Keeps I (m >>= f)
  Keeps-bind m f hm hf s h = Post-bind (λ _ t. I t) (λ _ t. I t) m f s (hm s h) hf

  pub Keeps-for_each :
      {A : Type 0} (f : A → S → Outcome S ⊤) (xs : List A)
      → ((a : A) → Keeps I (f a))
      → Keeps I (for_each f xs)
  Keeps-for_each f [] hf s h = h
  Keeps-for_each f (x ∷ xs) hf s h =
      Keeps-bind (f x) (λ _. for_each f xs) (hf x) (λ _. Keeps-for_each f xs hf) s h

  pub Keeps-when : (b : Bool) (m : S → Outcome S ⊤) → Keeps I m → Keeps I (when b m)
  Keeps-when true m h s i = h s i
  Keeps-when false m h s i = i
