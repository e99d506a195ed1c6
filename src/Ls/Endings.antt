-- ===== src/Ls/Endings.antt =====
-- The loop of printescaped() in ls ends.
use computer_science_notes.Base.{
  ℕ, zero, suc, ◌-◌, ◌≤◌, ◌<◌, ◌≡◌, refl, ap, Bool-cases, inl, inr, List, [], ◌∷◌, length, drop,
  ltb, if◌then◌else◌, arith,
}
use computer_science_notes.Ls.Escape.{
  Locale, MbRead, null_char, invalid, incomplete, char_read, Printed, ◌<+>◌, printwc, question_mark,
  escape_reply, escape_loop,
}

-- mbrtowc() takes at least one byte for a character that is not null.
abbrev pub Advances : Locale → Type 0
Advances k =
    (st : k.Shift) (src : List ℕ) (wc n : ℕ) (st' : k.Shift)
    → k.mbrtowc st src ≡ (char_read wc n, st')
    → 0 < n

length-drop : (n : ℕ) (l : List ℕ) → length (drop n l) ≡ length l - n
length-drop zero l = omega arith
length-drop (suc n) [] = omega arith
length-drop (suc n) (x ∷ l) = omega (arith, length-drop n l)

module _ (k : Locale) where
  escape_reply-eq :
      (again again' : List ℕ → k.Shift → k.Shift → Printed)
      → (src : List ℕ) (out : k.Shift) (r : MbRead × k.Shift)
      → ((wc n : ℕ) → r.0 ≡ char_read wc n → 0 < n)
      → 0 < length src
      → ((l : List ℕ) (st o : k.Shift) → length l < length src → again l st o ≡ again' l st o)
      → escape_reply k again src out r ≡ escape_reply k again' src out r
  unfolding escape_reply
  escape_reply-eq again again' src out (null_char, st) adv p same = refl
  escape_reply-eq again again' src out (invalid, st) adv p same =
      ap (λ q. (printwc k question_mark out).0 <+> q)
        (same (drop 1 src) k.initial (printwc k question_mark out).1
          (omega (arith, length-drop 1 src)))
  escape_reply-eq again again' src out (incomplete, st) adv p same =
      elim (Bool-cases (ltb (length src) k.mb_cur_max)) [
        | inl short ↦ rw (short, escape_reply) refl
        | inr long ↦ rw (long, escape_reply) (same [] st out (omega arith))
      ]
  escape_reply-eq again again' src out (char_read wc n, st) adv p same =
      let shown = printwc k (if k.iswprint wc then wc else question_mark) out in
      ap (λ q. shown.0 <+> q)
        (same (drop n src) st shown.1 (omega (arith, adv wc n refl, length-drop n src)))

  escape_loop_same :
      (f g : ℕ) (src : List ℕ) (st out : k.Shift)
      → Advances k
      → length src ≤ f
      → length src ≤ g
      → escape_loop k f src st out ≡ escape_loop k g src st out
  unfolding escape_loop
  escape_loop_same zero zero [] st out adv p q = refl
  escape_loop_same zero (suc g) [] st out adv p q = refl
  escape_loop_same (suc f) zero [] st out adv p q = refl
  escape_loop_same (suc f) (suc g) [] st out adv p q = refl
  escape_loop_same zero g (b ∷ bs) st out adv p q = absurd (omega arith)
  escape_loop_same (suc f) zero (b ∷ bs) st out adv p q = absurd (omega arith)
  escape_loop_same (suc f) (suc g) (b ∷ bs) st out adv p q =
      escape_reply-eq (escape_loop k f) (escape_loop k g) (b ∷ bs) out (k.mbrtowc st (b ∷ bs))
        (λ wc n e.
          adv st (b ∷ bs) wc n (k.mbrtowc st (b ∷ bs)).1
            (ap (λ m. (m, (k.mbrtowc st (b ∷ bs)).1)) e))
        (omega arith) (λ l st' o lt. escape_loop_same f g l st' o adv (omega arith) (omega arith))

  -- Where mbrtowc() takes at least one byte for a character, the loop of printescaped() ends within a
  -- round for each byte: more rounds print nothing else and count nothing else.
  pub escape_loop_ends :
      (fuel : ℕ) (src : List ℕ) (st out : k.Shift)
      → Advances k
      → length src ≤ fuel
      → escape_loop k fuel src st out ≡ escape_loop k (length src) src st out
  escape_loop_ends fuel src st out adv h =
      escape_loop_same fuel (length src) src st out adv h (omega arith)
