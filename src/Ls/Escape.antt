-- ===== src/Ls/Escape.antt =====
-- The functions of util.c that print names: printwc(), printescaped() and safe_print(), over the
-- multibyte functions of the C library, strvis() and humanize_number() as parameters.
use computer_science_notes.Base.{
  ℕ, zero, suc, ◌+◌, Bool, true, false, Option, none, some, List, [], ◌∷◌, ◌++◌, length, drop, ltb,
  ◌==◌, if◌then◌else◌,
}

-- What mbrtowc() gives: 0, -1, -2, or a character with the number of its bytes.
pub data MbRead : Type 0 where
  null_char : MbRead
  invalid : MbRead
  incomplete : MbRead
  char_read : ℕ → ℕ → MbRead

-- What the program takes from the C library and its locale. `Shift` is mbstate_t, and `initial` the
-- state of all zeros.
pub record Locale : Type 1 where
  pub Shift : Type 0
  pub initial : Shift
  pub mbrtowc : Shift → List ℕ → MbRead × Shift
  pub wcrtomb : Shift → ℕ → Option (List ℕ) × Shift
  pub wcwidth : ℕ → ℕ
  pub iswprint : ℕ → Bool
  pub mb_cur_max : ℕ
  -- strvis() with VIS_NL, VIS_OCTAL and VIS_WHITE, and VIS_CSTYLE where the test holds.
  pub strvis : Bool → List ℕ → List ℕ
  -- humanize_number() as the program calls it, and printf() of "%'llu".
  pub humanized : ℕ → List ℕ
  pub grouped : ℕ → List ℕ
  pub user_from_uid : ℕ → Option (List ℕ)
  pub group_from_gid : ℕ → Option (List ℕ)

-- A text that is printed, and the number that its printing returns.
abbrev pub Printed : Type 0
Printed = List ℕ × ℕ

-- Printing one text behind another, with the sum of the numbers.
infixl 60 ◌<+>◌
abbrev pub ◌<+>◌ : Printed → Printed → Printed
p <+> q = (p.0 ++ q.0, p.1 + q.1)

abbrev pub plain : List ℕ → Printed
plain text = (text, length text)

abbrev pub question_mark : ℕ
question_mark = 63

-- `if (size > 0 && buf[size - 1] == '\0') --size;`
unfoldable pub drop_last_null : List ℕ → List ℕ
drop_last_null [] = []
drop_last_null (b ∷ []) = elim (b == 0) [ true ↦ [] | false ↦ b ∷ [] ]
drop_last_null (b ∷ c ∷ bs) = b ∷ drop_last_null (c ∷ bs)

module _ (k : Locale) where
  -- printwc() behind wcrtomb().
  unfoldable pub print_bytes : ℕ → Option (List ℕ) → Printed
  print_bytes wc none = ([], 0)
  print_bytes wc (some bytes) = elim (wc == 0) [
    | true ↦ (drop_last_null bytes, 0)
    | false ↦ (bytes, k.wcwidth wc)
  ]

  -- printwc()
  unfoldable pub printwc : ℕ → k.Shift → Printed × k.Shift
  printwc wc out = let (bytes, out') = k.wcrtomb out wc in (print_bytes wc bytes, out')

  -- The body of printescaped()'s loop behind mbrtowc(), where `again` is the next round.
  unfoldable pub escape_reply :
      (List ℕ → k.Shift → k.Shift → Printed) → List ℕ → k.Shift → MbRead × k.Shift → Printed
  escape_reply again src out (null_char, st) = (printwc 0 out).0
  escape_reply again src out (invalid, st) =
      let (text, out') = printwc question_mark out in text <+> again (drop 1 src) k.initial out'
  escape_reply again src out (incomplete, st) = elim (ltb (length src) k.mb_cur_max) [
    | true ↦ (printwc question_mark out).0
    | false ↦ again [] st out
  ]
  escape_reply again src out (char_read wc n, st) =
      let (text, out') = printwc (if k.iswprint wc then wc else question_mark) out in
      text <+> again (drop n src) st out'

  -- The loop of printescaped() for at most `fuel` rounds, at the bytes left, with the states of the
  -- reading and of the writing.
  unfoldable pub escape_loop : ℕ → List ℕ → k.Shift → k.Shift → Printed
  escape_loop zero src st out = ([], 0)
  escape_loop (suc fuel) [] st out = ([], 0)
  escape_loop (suc fuel) (b ∷ bs) st out =
      escape_reply (escape_loop fuel) (b ∷ bs) out (k.mbrtowc st (b ∷ bs))

  -- printescaped(): the null byte is among the bytes that are read.
  unfoldable pub printescaped : List ℕ → Printed
  printescaped src = escape_loop (length src + 1) (src ++ 0 ∷ []) k.initial k.initial

  -- safe_print()
  unfoldable pub safe_print : Bool → List ℕ → Printed
  safe_print octal_escape src = plain (k.strvis octal_escape src)
