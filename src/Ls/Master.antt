-- ===== src/Ls/Master.antt =====
-- mastercmp() of ls.c, the comparison that fts_open() is given.
use computer_science_notes.Base.{◌≡◌, refl, arith}
use computer_science_notes.Ls.Compare.{
  Info, fts_d, fts_err, fts_ns, fts_other, same_info, Entry, Options, directories_apart, mastercmp,
}
use computer_science_notes.Ls.Order.{sortfcn_flip}
use computer_science_notes.Ls.Keys.{negate, namecmp_flip}

same_info_sym : (i j : Info) → same_info i j ≡ same_info j i
same_info_sym fts_d fts_d = refl
same_info_sym fts_d fts_err = refl
same_info_sym fts_d fts_ns = refl
same_info_sym fts_d (fts_other n) = refl
same_info_sym fts_err fts_d = refl
same_info_sym fts_err fts_err = refl
same_info_sym fts_err fts_ns = refl
same_info_sym fts_err (fts_other n) = refl
same_info_sym fts_ns fts_d = refl
same_info_sym fts_ns fts_err = refl
same_info_sym fts_ns fts_ns = refl
same_info_sym fts_ns (fts_other n) = refl
same_info_sym (fts_other m) fts_d = refl
same_info_sym (fts_other m) fts_err = refl
same_info_sym (fts_other m) fts_ns = refl
same_info_sym (fts_other m) (fts_other n) = ground arith

-- Exchanging two entries of which neither or both are arguments changes the sign of the comparison:
-- with every option, and for entries with errors too.
pub mastercmp_flip :
    (o : Options) (a b : Entry) → a.at_root ≡ b.at_root → mastercmp o b a ≡ negate (mastercmp o a b)
unfolding mastercmp directories_apart
mastercmp_flip o a b h =
    ground (arith, sortfcn_flip o a b, namecmp_flip a b, same_info_sym a.info b.info)
