-- ===== src/Ls/FlagTrip.antt =====
-- string_to_flags() gives the flags back that flags_to_string() has written.
use computer_science_notes.Base.{
  ℕ, Bool, true, false, Option, none, some, List, [], ◌∷◌, ◌≡◌, refl, arith, ap, ◌∙◌, Bool-cases,
  inl, inr, ◌||◌, ◌&&◌, if◌then◌else◌,
}
use mathlib.Core.Path.{subst}
use computer_science_notes.Ls.Flags.{
  StatFlag, uf_append, uf_immutable, uf_nodump, uf_opaque, sf_append, sf_archived, sf_immutable,
  Flags, put, no_flags, same_flag, all_flags, or_default, flags_to_string, Sets, string_to_flags,
  run_tokens, tokens,
}
use computer_science_notes.Ls.FlagWords.{Reads, collect, write_flags-Reads}

same_flag_lem : (f g : StatFlag) → same_flag f g ≡ true → f ≡ g
same_flag_lem uf_append uf_append h = refl
same_flag_lem uf_append uf_immutable h = ground arith
same_flag_lem uf_append uf_nodump h = ground arith
same_flag_lem uf_append uf_opaque h = ground arith
same_flag_lem uf_append sf_append h = ground arith
same_flag_lem uf_append sf_archived h = ground arith
same_flag_lem uf_append sf_immutable h = ground arith
same_flag_lem uf_immutable uf_append h = ground arith
same_flag_lem uf_immutable uf_immutable h = refl
same_flag_lem uf_immutable uf_nodump h = ground arith
same_flag_lem uf_immutable uf_opaque h = ground arith
same_flag_lem uf_immutable sf_append h = ground arith
same_flag_lem uf_immutable sf_archived h = ground arith
same_flag_lem uf_immutable sf_immutable h = ground arith
same_flag_lem uf_nodump uf_append h = ground arith
same_flag_lem uf_nodump uf_immutable h = ground arith
same_flag_lem uf_nodump uf_nodump h = refl
same_flag_lem uf_nodump uf_opaque h = ground arith
same_flag_lem uf_nodump sf_append h = ground arith
same_flag_lem uf_nodump sf_archived h = ground arith
same_flag_lem uf_nodump sf_immutable h = ground arith
same_flag_lem uf_opaque uf_append h = ground arith
same_flag_lem uf_opaque uf_immutable h = ground arith
same_flag_lem uf_opaque uf_nodump h = ground arith
same_flag_lem uf_opaque uf_opaque h = refl
same_flag_lem uf_opaque sf_append h = ground arith
same_flag_lem uf_opaque sf_archived h = ground arith
same_flag_lem uf_opaque sf_immutable h = ground arith
same_flag_lem sf_append uf_append h = ground arith
same_flag_lem sf_append uf_immutable h = ground arith
same_flag_lem sf_append uf_nodump h = ground arith
same_flag_lem sf_append uf_opaque h = ground arith
same_flag_lem sf_append sf_append h = refl
same_flag_lem sf_append sf_archived h = ground arith
same_flag_lem sf_append sf_immutable h = ground arith
same_flag_lem sf_archived uf_append h = ground arith
same_flag_lem sf_archived uf_immutable h = ground arith
same_flag_lem sf_archived uf_nodump h = ground arith
same_flag_lem sf_archived uf_opaque h = ground arith
same_flag_lem sf_archived sf_append h = ground arith
same_flag_lem sf_archived sf_archived h = refl
same_flag_lem sf_archived sf_immutable h = ground arith
same_flag_lem sf_immutable uf_append h = ground arith
same_flag_lem sf_immutable uf_immutable h = ground arith
same_flag_lem sf_immutable uf_nodump h = ground arith
same_flag_lem sf_immutable uf_opaque h = ground arith
same_flag_lem sf_immutable sf_append h = ground arith
same_flag_lem sf_immutable sf_archived h = ground arith
same_flag_lem sf_immutable sf_immutable h = refl

abbrev listed : StatFlag → List StatFlag → Bool
listed g [] = false
listed g (f ∷ fs) = same_flag f g || listed g fs

listed_all : (g : StatFlag) → listed g all_flags ≡ true
listed_all uf_append = refl
listed_all uf_immutable = refl
listed_all uf_nodump = refl
listed_all uf_opaque = refl
listed_all sf_append = refl
listed_all sf_archived = refl
listed_all sf_immutable = refl

abbrev both : Flags → Flags → Sets
both set clear = record { set_flags = some set; clear_flags = some clear }

-- The flags that are set and cleared at the end.
abbrev gather : Flags → Bool → List StatFlag → Flags → Flags
gather fl v [] word = word
gather fl v (f ∷ fs) word = gather fl v fs (if fl f then put f v word else word)

collect-both :
    (fl : Flags) (fs : List StatFlag) (set clear : Flags)
    → collect fl fs (both set clear) ≡ both (gather fl true fs set) (gather fl false fs clear)
collect-both fl [] set clear = refl
collect-both fl (f ∷ fs) set clear = elim (Bool-cases (fl f)) [
  | inl e ↦ rw (e, collect, gather) (collect-both fl fs (put f true set) (put f false clear))
  | inr e ↦ rw (e, collect, gather) (collect-both fl fs set clear)
]

same_value : (fl : Flags) (f g : StatFlag) → same_flag f g ≡ true → fl f ≡ fl g
same_value fl f g e = ap fl (same_flag_lem f g e)

gather_set :
    (fl : Flags) (fs : List StatFlag) (word : Flags) (g : StatFlag)
    → gather fl true fs word g ≡ (word g || (listed g fs && fl g))
gather_set fl [] word g = ground arith
gather_set fl (f ∷ fs) word g = elim (Bool-cases (fl f)) [
  | inl e ↦
      rw (e, gather) (gather_set fl fs (put f true word) g ∙ ground (arith, same_value fl f g))
  | inr e ↦ rw (e, gather) (gather_set fl fs word g ∙ ground (arith, same_value fl f g))
]

gather_clear :
    (fl : Flags) (fs : List StatFlag) (word : Flags) (g : StatFlag)
    → word g ≡ false
    → gather fl false fs word g ≡ false
gather_clear fl [] word g h = h
gather_clear fl (f ∷ fs) word g h =
    gather_clear fl fs (if fl f then put f false word else word) g (ground arith)

abbrev bit : Option Flags → StatFlag → Bool
bit none g = false
bit (some word) g = word g

written_some :
    (default : List ℕ) (written : Option (List ℕ)) (f : StatFlag) (set clear : Flags)
    → Reads written (both no_flags no_flags) (both set clear)
    → set f ≡ true
    → run_tokens (tokens (or_default default written)) (both no_flags no_flags)
      ≡ (none, both set clear)
written_some default (some w) f set clear h e = h
written_some default none f set clear h e =
    let clash : false ≡ set f = ap (λ s. bit s.set_flags f) h in ground arith

-- What flags_to_string() writes of flags of which at least one is set, string_to_flags() reads
-- without an error, whatever the default and the old values are. With two pointers that are not
-- NULL, it sets exactly these flags, and clears none.
pub string_to_flags-flags_to_string :
    (fl : Flags) (default : List ℕ) (f : StatFlag) (old_set old_clear : Flags)
    → fl f ≡ true
    → (set : Flags) × (clear : Flags) × (string_to_flags
          (flags_to_string fl default)
          (both old_set old_clear)
        ≡ (none, both set clear))
      × ((g : StatFlag) → (set g ≡ fl g) × (clear g ≡ false))
unfolding string_to_flags flags_to_string
string_to_flags-flags_to_string fl default f old_set old_clear h =
    let set = gather fl true all_flags no_flags in
    let clear = gather fl false all_flags no_flags in
    let same : (g : StatFlag) → set g ≡ fl g =
      λ g. (gather_set fl all_flags no_flags g ∙ ap (λ b. b && fl g) (listed_all g)) in
    (
      set,
      clear,
      written_some default _ f set clear
          (subst (Reads _ (both no_flags no_flags)) (collect-both fl all_flags no_flags no_flags)
            (write_flags-Reads fl all_flags none _ _ refl))
          (same f ∙ h),
      λ g. (same g, gather_clear fl all_flags no_flags g refl),
    )
