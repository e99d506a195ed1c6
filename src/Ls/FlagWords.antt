-- ===== src/Ls/FlagWords.antt =====
-- string_to_flags() reads what flags_to_string() writes.
use computer_science_notes.Base.{if◌then◌else◌}
use computer_science_notes.Base.{Option-cases}
use computer_science_notes.Base.{
  ℕ, true, false, Option, none, some, List, [], ◌∷◌, ◌++◌, ◌≡◌, refl, arith, ap, ◌∙◌, sym,
  Bool-cases, inl, inr,
}
use computer_science_notes.Ls.Flags.{
  StatFlag, uf_append, uf_immutable, uf_nodump, uf_opaque, sf_append, sf_archived, sf_immutable,
  Flags, flag_name, sappend, write_flag, write_flags, Sets, test_flag, flag_of, tests_of,
  token_flag, tokens, is_delimiter, onto_first, run_tokens,
}

-- The name that flags_to_string() writes for a flag is a token that sets this flag, and with `no`
-- before it one that clears this flag: also for `nodump` itself, which the prefix test cuts.
pub token_flag-flag_name :
    (f : StatFlag)
    → (token_flag (flag_name f) ≡ some (false, f))
      × (token_flag (110 ∷ 111 ∷ flag_name f) ≡ some (true, f))
unfolding token_flag flag_of tests_of
token_flag-flag_name uf_append = (refl, refl)
token_flag-flag_name uf_immutable = (refl, refl)
token_flag-flag_name uf_nodump = (refl, refl)
token_flag-flag_name uf_opaque = (refl, refl)
token_flag-flag_name sf_append = (refl, refl)
token_flag-flag_name sf_archived = (refl, refl)
token_flag-flag_name sf_immutable = (refl, refl)

-- There is always a first token.
tokens_cons : (l : List ℕ) → (t : List ℕ) × (ts : List (List ℕ)) × (tokens l ≡ t ∷ ts)
unfolding tokens
tokens_cons [] = ([], [], refl)
tokens_cons (c ∷ l) = elim (Bool-cases (is_delimiter c)) [
  | inl d ↦ ([], tokens l, rw d refl)
  | inr d ↦ let (t, ts, e) = tokens_cons l in (c ∷ t, ts, rw d (ap (onto_first c) e))
]

onto_first-append :
    (c : ℕ) (ts us : List (List ℕ)) (t : List ℕ) (vs : List (List ℕ))
    → ts ≡ t ∷ vs
    → onto_first c (ts ++ us) ≡ onto_first c ts ++ us
onto_first-append c [] us t vs e = ground arith
onto_first-append c (u ∷ ts) us t vs e = refl

tokens-append : (l r : List ℕ) → tokens (l ++ 44 ∷ r) ≡ tokens l ++ tokens r
unfolding tokens
tokens-append [] r = refl
tokens-append (c ∷ l) r = elim (Bool-cases (is_delimiter c)) [
  | inl d ↦ rw d (ap (λ ts. [] ∷ ts) (tokens-append l r))
  | inr d ↦
      let (t, ts, e) = tokens_cons l in
      rw d
        (ap (onto_first c) (tokens-append l r) ∙ onto_first-append c (tokens l) (tokens r) t ts e)
]

-- A name is one token.
tokens-flag_name : (f : StatFlag) → tokens (flag_name f) ≡ flag_name f ∷ []
unfolding tokens
tokens-flag_name uf_append = refl
tokens-flag_name uf_immutable = refl
tokens-flag_name uf_nodump = refl
tokens-flag_name uf_opaque = refl
tokens-flag_name sf_append = refl
tokens-flag_name sf_archived = refl
tokens-flag_name sf_immutable = refl

run_tokens-append :
    (ts us : List (List ℕ)) (s t : Sets)
    → run_tokens ts s ≡ (none, t)
    → run_tokens (ts ++ us) s ≡ run_tokens us t
unfolding run_tokens
run_tokens-append [] us s t h = ap (λ q. run_tokens us q.1) h
run_tokens-append ([] ∷ ts) us s t h = run_tokens-append ts us s t h
run_tokens-append ((c ∷ p) ∷ ts) us s t h = elim (Option-cases (token_flag (c ∷ p))) [
  | inl e ↦
      let stops : run_tokens ((c ∷ p) ∷ ts) s ≡ (some (c ∷ p), s) = rw (e, run_tokens) refl in
      let clash : some (c ∷ p) ≡ none = ap (λ q. q.0) (sym stops ∙ h) in ground arith
  | inr (r, e) ↦
      let on : run_tokens ((c ∷ p) ∷ ts) s ≡ run_tokens ts (test_flag r.0 r.1 s) =
        rw (e, run_tokens) refl in
      rw (e, run_tokens) (run_tokens-append ts us (test_flag r.0 r.1 s) t (sym on ∙ h))
]

run_flag_name :
    (f : StatFlag) (s : Sets) → run_tokens (flag_name f ∷ []) s ≡ (none, test_flag false f s)
unfolding run_tokens token_flag flag_of tests_of
run_flag_name uf_append s = refl
run_flag_name uf_immutable s = refl
run_flag_name uf_nodump s = refl
run_flag_name uf_opaque s = refl
run_flag_name sf_append s = refl
run_flag_name sf_archived s = refl
run_flag_name sf_immutable s = refl

-- What has been written so far is read from the flags `s` on to the flags `t`.
abbrev pub Reads : Option (List ℕ) → Sets → Sets → Type 0
Reads none s t = s ≡ t
Reads (some written) s t = run_tokens (tokens written) s ≡ (none, t)

abbrev pub collect : Flags → List StatFlag → Sets → Sets
collect fl [] t = t
collect fl (f ∷ fs) t = collect fl fs (if fl f then test_flag false f t else t)

sappend-Reads :
    (f : StatFlag) (written : Option (List ℕ)) (s t : Sets)
    → Reads written s t
    → Reads (sappend (flag_name f) written) s (test_flag false f t)
sappend-Reads f none s t h =
    ap (λ ts. run_tokens ts s) (tokens-flag_name f)
    ∙ run_flag_name f s
    ∙ ap (λ q. (none, test_flag false f q)) h
sappend-Reads f (some written) s t h =
    ap (λ ts. run_tokens ts s)
      (tokens-append written (flag_name f) ∙ ap (λ ts. tokens written ++ ts) (tokens-flag_name f))
    ∙ run_tokens-append (tokens written) (flag_name f ∷ []) s t h
    ∙ run_flag_name f t

write_flag-Reads :
    (fl : Flags) (f : StatFlag) (written : Option (List ℕ)) (s t : Sets)
    → Reads written s t
    → Reads (write_flag fl f written) s (if fl f then test_flag false f t else t)
unfolding write_flag
write_flag-Reads fl f written s t h = elim (Bool-cases (fl f)) [
  | inl e ↦ rw (e, Reads) (sappend-Reads f written s t h)
  | inr e ↦ rw (e, Reads) h
]

pub write_flags-Reads :
    (fl : Flags) (fs : List StatFlag) (written : Option (List ℕ)) (s t : Sets)
    → Reads written s t
    → Reads (write_flags fl fs written) s (collect fl fs t)
unfolding write_flags
write_flags-Reads fl [] written s t h = h
write_flags-Reads fl (f ∷ fs) written s t h =
    write_flags-Reads fl fs (write_flag fl f written) s _ (write_flag-Reads fl f written s t h)
