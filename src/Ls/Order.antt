-- ===== src/Ls/Order.antt =====
-- The functions of cmp.c are total orders, and the reversed ones are their converses.
use mathlib.Core.Path.{subst}
use computer_science_notes.Ls.Keys.{
  negate, NotAfter, strcmp-flip, strcmp_trans, strcmp-eq, by_key-flip, by_key_reversed-flip,
  by_key_trans, by_key-zero, time-flip, time_trans, time_reversed-flip,
}
use computer_science_notes.Base.{Bool-cases, inl, inr, Bool, true, false, ◌≡◌, refl, ap, ◌∙◌, sym}
use computer_science_notes.Base.Int.{pos}
use computer_science_notes.Ls.Compare.{
  strcmp, Entry, namecmp, revnamecmp, by_key, SortKey, by_name, by_size, by_time, Options, sortfcn,
  forward_function, reverse_function, modcmp, revmodcmp, acccmp, revacccmp, statcmp, revstatcmp,
  sizecmp, revsizecmp,
}

forward-flip :
    (k : SortKey) (accesstime statustime : Bool) (a b : Entry)
    → forward_function k accesstime statustime b a
      ≡ negate (forward_function k accesstime statustime a b)
unfolding forward_function namecmp sizecmp acccmp statcmp modcmp
forward-flip by_name c s a b = strcmp-flip a.name b.name
forward-flip by_size c s a b =
    ap (by_key b.size a.size) (strcmp-flip a.name b.name)
    ∙ by_key-flip a.size b.size (strcmp a.name b.name)
forward-flip by_time true s a b =
    ap (λ l. by_key b.atime a.atime (by_key b.atimensec a.atimensec l)) (strcmp-flip a.name b.name)
    ∙ time-flip a.atime b.atime a.atimensec b.atimensec (strcmp a.name b.name)
forward-flip by_time false true a b =
    ap (λ l. by_key b.ctime a.ctime (by_key b.ctimensec a.ctimensec l)) (strcmp-flip a.name b.name)
    ∙ time-flip a.ctime b.ctime a.ctimensec b.ctimensec (strcmp a.name b.name)
forward-flip by_time false false a b =
    ap (λ l. by_key b.mtime a.mtime (by_key b.mtimensec a.mtimensec l)) (strcmp-flip a.name b.name)
    ∙ time-flip a.mtime b.mtime a.mtimensec b.mtimensec (strcmp a.name b.name)

reverse-flip :
    (k : SortKey) (accesstime statustime : Bool) (a b : Entry)
    → reverse_function k accesstime statustime a b ≡ forward_function k accesstime statustime b a
unfolding forward_function namecmp sizecmp acccmp statcmp modcmp reverse_function revnamecmp
    revsizecmp revacccmp revstatcmp revmodcmp
reverse-flip by_name c s a b = refl
reverse-flip by_size c s a b = by_key_reversed-flip a.size b.size (strcmp b.name a.name)
reverse-flip by_time true s a b =
    time_reversed-flip a.atime b.atime a.atimensec b.atimensec (strcmp b.name a.name)
reverse-flip by_time false true a b =
    time_reversed-flip a.ctime b.ctime a.ctimensec b.ctimensec (strcmp b.name a.name)
reverse-flip by_time false false a b =
    time_reversed-flip a.mtime b.mtime a.mtimensec b.mtimensec (strcmp b.name a.name)

forward_trans :
    (k : SortKey) (accesstime statustime : Bool) (a b d : Entry)
    → NotAfter (forward_function k accesstime statustime a b)
    → NotAfter (forward_function k accesstime statustime b d)
    → NotAfter (forward_function k accesstime statustime a d)
unfolding forward_function namecmp sizecmp acccmp statcmp modcmp
forward_trans by_name c s a b d = strcmp_trans a.name b.name d.name
forward_trans by_size c s a b d =
    by_key_trans a.size b.size d.size _ _ _ (strcmp_trans a.name b.name d.name)
forward_trans by_time true s a b d =
    time_trans a.atime b.atime d.atime a.atimensec b.atimensec d.atimensec _ _ _
      (strcmp_trans a.name b.name d.name)
forward_trans by_time false true a b d =
    time_trans a.ctime b.ctime d.ctime a.ctimensec b.ctimensec d.ctimensec _ _ _
      (strcmp_trans a.name b.name d.name)
forward_trans by_time false false a b d =
    time_trans a.mtime b.mtime d.mtime a.mtimensec b.mtimensec d.mtimensec _ _ _
      (strcmp_trans a.name b.name d.name)

forward-eq :
    (k : SortKey) (accesstime statustime : Bool) (a b : Entry)
    → forward_function k accesstime statustime a b ≡ pos 0
    → a.name ≡ b.name
unfolding forward_function namecmp sizecmp acccmp statcmp modcmp
forward-eq by_name c s a b h = strcmp-eq a.name b.name h
forward-eq by_size c s a b h = strcmp-eq a.name b.name (by_key-zero a.size b.size _ h)
forward-eq by_time true s a b h =
    strcmp-eq a.name b.name
      (by_key-zero a.atimensec b.atimensec _ (by_key-zero a.atime b.atime _ h))
forward-eq by_time false true a b h =
    strcmp-eq a.name b.name
      (by_key-zero a.ctimensec b.ctimensec _ (by_key-zero a.ctime b.ctime _ h))
forward-eq by_time false false a b h =
    strcmp-eq a.name b.name
      (by_key-zero a.mtimensec b.mtimensec _ (by_key-zero a.mtime b.mtime _ h))

-- With -r, the order is the converse of the order without it, for every other option.
pub sortfcn_reversed :
    (o : Options) (a b : Entry)
    → sortfcn (record o { reversesort = true }) a b ≡ sortfcn (record o { reversesort = false }) b a
unfolding sortfcn
sortfcn_reversed o a b = reverse-flip o.sortkey o.accesstime o.statustime a b

sortfcn_forward :
    (o : Options) (a b : Entry)
    → o.reversesort ≡ false
    → sortfcn o a b ≡ forward_function o.sortkey o.accesstime o.statustime a b
unfolding sortfcn
sortfcn_forward o a b f = rw f refl

sortfcn_backward :
    (o : Options) (a b : Entry)
    → o.reversesort ≡ true
    → sortfcn o a b ≡ forward_function o.sortkey o.accesstime o.statustime b a
unfolding sortfcn
sortfcn_backward o a b r = rw r (reverse-flip o.sortkey o.accesstime o.statustime a b)

-- Exchanging the entries changes the sign of the comparison, for every option.
pub sortfcn_flip : (o : Options) (a b : Entry) → sortfcn o b a ≡ negate (sortfcn o a b)
sortfcn_flip o a b = elim (Bool-cases o.reversesort) [
  | inl r ↦
      sortfcn_backward o b a r
      ∙ forward-flip o.sortkey o.accesstime o.statustime b a
      ∙ ap negate (sym (sortfcn_backward o a b r))
  | inr f ↦
      sortfcn_forward o b a f
      ∙ forward-flip o.sortkey o.accesstime o.statustime a b
      ∙ ap negate (sym (sortfcn_forward o a b f))
]

-- If one entry is not after another, and this is not after a third, the first is not after the
-- third, for every option.
pub sortfcn_trans :
    (o : Options) (a b d : Entry)
    → NotAfter (sortfcn o a b)
    → NotAfter (sortfcn o b d)
    → NotAfter (sortfcn o a d)
sortfcn_trans o a b d h g = elim (Bool-cases o.reversesort) [
  | inl r ↦ subst NotAfter (sym (sortfcn_backward o a d r)) (
      forward_trans o.sortkey o.accesstime o.statustime d b a
        (subst NotAfter (sortfcn_backward o b d r) g) (subst NotAfter (sortfcn_backward o a b r) h))
  | inr f ↦ subst NotAfter (sym (sortfcn_forward o a d f)) (
      forward_trans o.sortkey o.accesstime o.statustime a b d
        (subst NotAfter (sortfcn_forward o a b f) h) (subst NotAfter (sortfcn_forward o b d f) g))
]

-- What qsort() and fts need of the comparison that the options choose: exchanging two entries changes
-- its sign, and if one entry is not after another, and this is not after a third, the first is not
-- after the third.
pub sortfcn_orders :
    (o : Options) (a b d : Entry)
    → NotAfter (sortfcn o a b)
    → NotAfter (sortfcn o b d)
    → NotAfter (sortfcn o a d) × (sortfcn o d a ≡ negate (sortfcn o a d))
sortfcn_orders o a b d p q = (sortfcn_trans o a b d p q, sortfcn_flip o a d)

-- Entries that the order does not tell apart have the same name, for every option.
pub sortfcn_ties : (o : Options) (a b : Entry) → sortfcn o a b ≡ pos 0 → a.name ≡ b.name
sortfcn_ties o a b h = elim (Bool-cases o.reversesort) [
  | inl r ↦
      sym (forward-eq o.sortkey o.accesstime o.statustime b a (sym (sortfcn_backward o a b r) ∙ h))
  | inr f ↦ forward-eq o.sortkey o.accesstime o.statustime a b (sym (sortfcn_forward o a b f) ∙ h)
]
