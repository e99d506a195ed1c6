-- ===== src/Ls/Keys.antt =====
-- The comparisons of names and of numbers that the functions of cmp.c are made of.
use computer_science_notes.Base.{ℕ, List, [], ◌∷◌, ◌≡◌, refl, arith, ap, suc, zero, ◌∙◌}
use computer_science_notes.Base.Int.{ℤ, pos, negsuc}
use computer_science_notes.Ls.Compare.{strcmp, Entry, namecmp, by_key, by_key_reversed}

abbrev pub negate : ℤ → ℤ
negate (pos zero) = pos 0
negate (pos (suc n)) = negsuc n
negate (negsuc n) = pos (suc n)

-- A comparison says "not after".
abbrev pub NotAfter : ℤ → Type 0
NotAfter (pos zero) = Unit
NotAfter (pos (suc n)) = ⊥
NotAfter (negsuc n) = Unit

pub strcmp-flip : (a b : List ℕ) → strcmp b a ≡ negate (strcmp a b)
unfolding strcmp
strcmp-flip [] [] = refl
strcmp-flip [] (b ∷ ys) = refl
strcmp-flip (a ∷ xs) [] = refl
strcmp-flip (a ∷ xs) (b ∷ ys) = ground (arith, strcmp-flip xs ys)

pub strcmp_trans :
    (a b c : List ℕ) → NotAfter (strcmp a b) → NotAfter (strcmp b c) → NotAfter (strcmp a c)
unfolding strcmp
strcmp_trans [] b [] h g = tt
strcmp_trans [] b (c ∷ zs) h g = tt
strcmp_trans (a ∷ xs) [] c h g = absurd h
strcmp_trans (a ∷ xs) (b ∷ ys) [] h g = absurd g
strcmp_trans (a ∷ xs) (b ∷ ys) (c ∷ zs) h g = ground (arith, strcmp_trans xs ys zs)

pub strcmp-eq : (a b : List ℕ) → strcmp a b ≡ pos 0 → a ≡ b
unfolding strcmp
strcmp-eq [] [] h = refl
strcmp-eq [] (b ∷ ys) h = ground arith
strcmp-eq (a ∷ xs) [] h = ground arith
strcmp-eq (a ∷ xs) (b ∷ ys) h = ground (arith, strcmp-eq xs ys)

pub by_key-flip : (a b l : ℤ) → by_key b a (negate l) ≡ negate (by_key a b l)
unfolding by_key
by_key-flip (pos a) (pos b) l = ground arith
by_key-flip (pos a) (negsuc b) l = ground arith
by_key-flip (negsuc a) (pos b) l = ground arith
by_key-flip (negsuc a) (negsuc b) l = ground arith

pub by_key_reversed-flip : (a b l : ℤ) → by_key_reversed a b l ≡ by_key b a l
unfolding by_key by_key_reversed
by_key_reversed-flip (pos a) (pos b) l = ground arith
by_key_reversed-flip (pos a) (negsuc b) l = ground arith
by_key_reversed-flip (negsuc a) (pos b) l = ground arith
by_key_reversed-flip (negsuc a) (negsuc b) l = ground arith

pub by_key_trans :
    (a b c l m r : ℤ)
    → (NotAfter l → NotAfter m → NotAfter r)
    → NotAfter (by_key a b l)
    → NotAfter (by_key b c m)
    → NotAfter (by_key a c r)
unfolding by_key
by_key_trans (pos a) (pos b) (pos c) l m r t h g = ground arith
by_key_trans (pos a) (pos b) (negsuc c) l m r t h g = ground arith
by_key_trans (pos a) (negsuc b) (pos c) l m r t h g = ground arith
by_key_trans (pos a) (negsuc b) (negsuc c) l m r t h g = ground arith
by_key_trans (negsuc a) (pos b) (pos c) l m r t h g = ground arith
by_key_trans (negsuc a) (pos b) (negsuc c) l m r t h g = ground arith
by_key_trans (negsuc a) (negsuc b) (pos c) l m r t h g = ground arith
by_key_trans (negsuc a) (negsuc b) (negsuc c) l m r t h g = ground arith

pub by_key-zero : (a b l : ℤ) → by_key a b l ≡ pos 0 → l ≡ pos 0
unfolding by_key
by_key-zero a b l h = ground arith

pub time-flip :
    (a b i j l : ℤ) → by_key b a (by_key j i (negate l)) ≡ negate (by_key a b (by_key i j l))
time-flip a b i j l = ap (by_key b a) (by_key-flip i j l) ∙ by_key-flip a b (by_key i j l)

pub time_trans :
    (a b c i j k l m r : ℤ)
    → (NotAfter l → NotAfter m → NotAfter r)
    → NotAfter (by_key a b (by_key i j l))
    → NotAfter (by_key b c (by_key j k m))
    → NotAfter (by_key a c (by_key i k r))
time_trans a b c i j k l m r t =
    by_key_trans a b c (by_key i j l) (by_key j k m) (by_key i k r) (by_key_trans i j k l m r t)

pub time_reversed-flip :
    (a b i j l : ℤ) → by_key_reversed a b (by_key_reversed i j l) ≡ by_key b a (by_key j i l)
time_reversed-flip a b i j l =
    by_key_reversed-flip a b _ ∙ ap (by_key b a) (by_key_reversed-flip i j l)

pub namecmp_flip : (a b : Entry) → namecmp b a ≡ negate (namecmp a b)
unfolding namecmp
namecmp_flip a b = strcmp-flip a.name b.name
