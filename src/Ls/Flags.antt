-- ===== src/Ls/Flags.antt =====
-- flags_to_string() and string_to_flags() of APUE/apue-code/05/make-examples/stat_flags.c, compiled
-- with HAVE_STRUCT_STAT_ST_FLAGS.
use computer_science_notes.Base.{same_string}
use computer_science_notes.Base.{
  ℕ, Bool, true, false, not, ◌&&◌, ◌||◌, Option, none, some, List, [], ◌∷◌, ◌++◌, if◌then◌else◌,
  ◌==◌, take,
}
use mathlib.Core.Option

-- The bits of st_flags that have names.
pub data StatFlag : Type 0 where
  uf_append : StatFlag
  uf_immutable : StatFlag
  uf_nodump : StatFlag
  uf_opaque : StatFlag
  sf_append : StatFlag
  sf_archived : StatFlag
  sf_immutable : StatFlag

abbrev pub same_flag : StatFlag → StatFlag → Bool
same_flag uf_append uf_append = true
same_flag uf_immutable uf_immutable = true
same_flag uf_nodump uf_nodump = true
same_flag uf_opaque uf_opaque = true
same_flag sf_append sf_append = true
same_flag sf_archived sf_archived = true
same_flag sf_immutable sf_immutable = true
same_flag _ _ = false

-- A word of flags, by its bits.
abbrev pub Flags : Type 0
Flags = StatFlag → Bool

abbrev pub no_flags : Flags
no_flags f = false

-- `*p |= f` and `*p &= ~f`.
abbrev pub put : StatFlag → Bool → Flags → Flags
put f v fl g = if same_flag f g then v else fl g

-- The names that flags_to_string() writes.
abbrev pub flag_name : StatFlag → List ℕ
flag_name uf_append = 117 ∷ 97 ∷ 112 ∷ 112 ∷ 110 ∷ 100 ∷ []
flag_name uf_immutable = 117 ∷ 99 ∷ 104 ∷ 103 ∷ []
flag_name uf_nodump = 110 ∷ 111 ∷ 100 ∷ 117 ∷ 109 ∷ 112 ∷ []
flag_name uf_opaque = 111 ∷ 112 ∷ 97 ∷ 113 ∷ 117 ∷ 101 ∷ []
flag_name sf_append = 115 ∷ 97 ∷ 112 ∷ 112 ∷ 110 ∷ 100 ∷ []
flag_name sf_archived = 97 ∷ 114 ∷ 99 ∷ 104 ∷ []
flag_name sf_immutable = 115 ∷ 99 ∷ 104 ∷ 103 ∷ []

-- SAPPEND(): the string written so far, `none` as long as `prefix` is NULL. No string is as long
-- as the array.
abbrev pub sappend : List ℕ → Option (List ℕ) → Option (List ℕ)
sappend name none = some name
sappend name (some written) = some (written ++ 44 ∷ name)

-- `if (flags & f) SAPPEND(...)`
unfoldable pub write_flag : Flags → StatFlag → Option (List ℕ) → Option (List ℕ)
write_flag fl f written = elim (fl f) [ true ↦ sappend (flag_name f) written | false ↦ written ]

abbrev pub or_default : List ℕ → Option (List ℕ) → List ℕ
or_default default none = take 127 default
or_default default (some written) = written

unfoldable pub write_flags : Flags → List StatFlag → Option (List ℕ) → Option (List ℕ)
write_flags fl [] written = written
write_flags fl (f ∷ fs) written = write_flags fl fs (write_flag fl f written)

abbrev pub all_flags : List StatFlag
all_flags =
    uf_append ∷ uf_immutable ∷ uf_nodump ∷ uf_opaque ∷ sf_append ∷ sf_archived ∷ sf_immutable ∷ []

-- flags_to_string()
unfoldable pub flags_to_string : Flags → List ℕ → List ℕ
flags_to_string fl default = or_default default (write_flags fl all_flags none)

-- What `setp` and `clrp` point to.
pub record Sets : Type 0 where
  pub set_flags : Option Flags
  pub clear_flags : Option Flags

-- The body of TEST() where the strings are equal.
abbrev pub test_flag : Bool → StatFlag → Sets → Sets
test_flag clear f s = record {
  set_flags = Option.map (put f (not clear)) s.set_flags;
  clear_flags = Option.map (put f clear) s.clear_flags;
}

-- The tests of one case of the switch, in their order.
abbrev pub first_match : List (List ℕ × StatFlag) → List ℕ → Option StatFlag
first_match [] p = none
first_match ((name, f) ∷ tests) p =
    let rest = first_match tests p in if same_string p name then some f else rest

abbrev pub first_char : List ℕ → ℕ
first_char [] = 0
first_char (c ∷ _) = c

-- The cases of the switch.
unfoldable pub tests_of : ℕ → List (List ℕ × StatFlag)
tests_of c =
    if c == 97
    then ((97 ∷ 114 ∷ 99 ∷ 104 ∷ [], sf_archived)
        ∷ (97 ∷ 114 ∷ 99 ∷ 104 ∷ 105 ∷ 118 ∷ 101 ∷ 100 ∷ [], sf_archived)
        ∷ [])
    else if c == 100
    then ((100 ∷ 117 ∷ 109 ∷ 112 ∷ [], uf_nodump) ∷ [])
    else if c == 110
    then ((110 ∷ 111 ∷ 100 ∷ 117 ∷ 109 ∷ 112 ∷ [], uf_nodump) ∷ [])
    else if c == 111
    then ((111 ∷ 112 ∷ 97 ∷ 113 ∷ 117 ∷ 101 ∷ [], uf_opaque) ∷ [])
    else if c == 115
    then ((115 ∷ 97 ∷ 112 ∷ 112 ∷ 110 ∷ 100 ∷ [], sf_append)
        ∷ (115 ∷ 97 ∷ 112 ∷ 112 ∷ 101 ∷ 110 ∷ 100 ∷ [], sf_append)
        ∷ (115 ∷ 99 ∷ 104 ∷ 103 ∷ [], sf_immutable)
        ∷ (115 ∷ 99 ∷ 104 ∷ 97 ∷ 110 ∷ 103 ∷ 101 ∷ [], sf_immutable)
        ∷ (115 ∷ 105 ∷ 109 ∷ 109 ∷ 117 ∷ 116 ∷ 97 ∷ 98 ∷ 108 ∷ 101 ∷ [], sf_immutable)
        ∷ [])
    else if c == 117
    then ((117 ∷ 97 ∷ 112 ∷ 112 ∷ 110 ∷ 100 ∷ [], uf_append)
        ∷ (117 ∷ 97 ∷ 112 ∷ 112 ∷ 101 ∷ 110 ∷ 100 ∷ [], uf_append)
        ∷ (117 ∷ 99 ∷ 104 ∷ 103 ∷ [], uf_immutable)
        ∷ (117 ∷ 99 ∷ 104 ∷ 97 ∷ 110 ∷ 103 ∷ 101 ∷ [], uf_immutable)
        ∷ (117 ∷ 105 ∷ 109 ∷ 109 ∷ 117 ∷ 116 ∷ 97 ∷ 98 ∷ 108 ∷ 101 ∷ [], uf_immutable)
        ∷ [])
    else []

-- The switch: which flag, and whether it is to be cleared; `none` where the function returns 1.
unfoldable pub flag_of : Bool → List ℕ → Option (Bool × StatFlag)
flag_of clear p =
    Option.map (λ f. ((if first_char p == 100 then not clear else clear), f))
      (first_match (tests_of (first_char p)) p)

-- A token that is not empty, with its prefix `no`.
unfoldable pub token_flag : List ℕ → Option (Bool × StatFlag)
token_flag [] = none
token_flag (a ∷ []) = flag_of false (a ∷ [])
token_flag (a ∷ b ∷ p) =
    if (a == 110) && (b == 111) then flag_of true p else flag_of false (a ∷ b ∷ p)

-- strsep() again and again, with the delimiters tab, blank and comma.
abbrev pub is_delimiter : ℕ → Bool
is_delimiter c = (c == 9) || (c == 32) || (c == 44)

abbrev pub onto_first : ℕ → List (List ℕ) → List (List ℕ)
onto_first c [] = (c ∷ []) ∷ []
onto_first c (t ∷ ts) = (c ∷ t) ∷ ts

unfoldable pub tokens : List ℕ → List (List ℕ)
tokens [] = [] ∷ []
tokens (c ∷ l) = let rest = tokens l in if is_delimiter c then [] ∷ rest else onto_first c rest

-- The loop: the token at which 1 is returned, or `none` for the return of 0; and the flags.
unfoldable pub run_tokens : List (List ℕ) → Sets → Option (List ℕ) × Sets
run_tokens [] s = (none, s)
run_tokens ([] ∷ ts) s = run_tokens ts s
run_tokens ((c ∷ p) ∷ ts) s = elim (token_flag (c ∷ p)) [
  | none ↦ (some (c ∷ p), s)
  | some r ↦ run_tokens ts (test_flag r.0 r.1 s)
]

-- string_to_flags() on pointers that point to the flags of `s`, where they are not NULL.
unfoldable pub string_to_flags : List ℕ → Sets → Option (List ℕ) × Sets
string_to_flags string s = run_tokens (tokens string) (record {
  set_flags = Option.map (λ _. no_flags) s.set_flags;
  clear_flags = Option.map (λ _. no_flags) s.clear_flags;
})
