-- ===== src/Seqnum/Distinct.antt =====
-- is_seqnum_sv.c gives no number twice before it has given 2^32.
use computer_science_notes.Base.{
  ℕ, zero, suc, ◌+◌, ◌≤◌, ◌<◌, ◌%◌, ◌^◌, ◌≡◌, ◌≢◌, refl, false, Option, none, some, List, [], ◌∷◌,
  ◌++◌, get_elem?, arith,
}
use mathlib.Core.Path.{subst}
use computer_science_notes.Base.Counts.{total}
use computer_science_notes.Base.Int.{ℤ, pos, negsuc}
use computer_science_notes.Sockets.Reading.{ReadReturn, read_line}
use computer_science_notes.Seqnum.Server.{
  Calls, int_len, Grant, Round, grant, answer, serve_client, and_then, serve, serve_accepted,
}

-- Each sequence of a list begins where the one before it ends, modulo 2^32, the first at a number and
-- the last one's end at another.
abbrev Chain : ℕ → List Grant → ℕ → Type 0
Chain first [] last = last ≡ first
Chain first (g ∷ grants) last = (g.start ≡ first) × Chain ((first + g.size) % 2 ^ 32) grants last

Chain-append :
    (first middle last : ℕ) (grants more : List Grant)
    → Chain first grants middle
    → Chain middle more last
    → Chain first (grants ++ more) last
Chain-append first middle last [] more c d = subst (λ n. Chain n more last) c d
Chain-append first middle last (g ∷ grants) more c d =
    (c.0, Chain-append ((first + g.size) % 2 ^ 32) middle last grants more c.1 d)

-- What has been granted in some rounds that begin with `first`.
abbrev Granted : {World : Type 0} → ℕ → Option (Round World) → Type 0
Granted first none = Unit
Granted first (some (grants, last, w)) = Chain first grants last

module _ {World : Type 0} (k : Calls World) where
  grant-Granted : (fd first : ℕ) (z : ℤ) (w : World) → Granted first (some (grant k fd first z w))
  unfolding grant
  grant-Granted fd first (negsuc n) w = refl
  grant-Granted fd first (pos zero) w = refl
  grant-Granted fd first (pos (suc n)) w = (refl, refl)

  answer-Granted :
      (fd first : ℕ) (r : Option (ReadReturn World)) → Granted first (answer k fd first r)
  unfolding answer
  answer-Granted fd first none = tt
  answer-Granted fd first (some (none, buffer, w)) = refl
  answer-Granted fd first (some (some zero, buffer, w)) = refl
  answer-Granted fd first (some (some (suc c), buffer, w)) =
      grant-Granted fd first (k.atoi buffer) w

  serve_accepted-Granted :
      (fuel first : ℕ) (r : Option ℕ × World) → Granted first (serve_accepted k fuel first r)
  unfolding serve_accepted serve_client
  serve_accepted-Granted fuel first (none, w) = refl
  serve_accepted-Granted fuel first (some fd, w) =
      answer-Granted fd first (read_line (k.read fd) fuel false int_len w)

  join_rounds :
      (first middle : ℕ) (grants : List Grant) (r : Option (Round World))
      → Chain first grants middle
      → Granted middle r
      → Granted first
          (elim r [ none ↦ none | some (more, last, w) ↦ some (grants ++ more, last, w) ])
  join_rounds first middle grants none c d = tt
  join_rounds first middle grants (some (more, last, w)) c d =
      Chain-append first middle last grants more c d

  and_then-Granted :
      (first : ℕ) (r : Option (Round World)) (again : ℕ → World → Option (Round World))
      → Granted first r
      → ((n : ℕ) (w : World) → Granted n (again n w))
      → Granted first (and_then r again)
  and_then-Granted first none again c d = tt
  and_then-Granted first (some (grants, middle, w)) again c d =
      join_rounds first middle grants (again middle w) c (d middle w)

  serve-Granted : (rounds fuel first : ℕ) (w : World) → Granted first (serve k rounds fuel first w)
  unfolding serve
  serve-Granted zero fuel first w = refl
  serve-Granted (suc rounds) fuel first w =
      and_then-Granted first (serve_accepted k fuel first (k.accept w)) (serve k rounds fuel)
        (serve_accepted-Granted fuel first (k.accept w)) (λ n v. serve-Granted rounds fuel n v)

abbrev pub sizes : List Grant → ℕ
sizes grants = total (λ g. g.size) grants

-- A sequence of a chain begins behind what stands before it.
Chain-start :
    (first shift last : ℕ) (grants : List Grant) (i : ℕ) (g : Grant)
    → Chain ((first + shift) % 2 ^ 32) grants last
    → get_elem? grants i ≡ some g
    → (before : ℕ) × (g.start ≡ (first + before) % 2 ^ 32)
      × (shift ≤ before)
      × (before + g.size ≤ shift + sizes grants)
Chain-start first shift last [] i g c e = absurd (ground arith)
Chain-start first shift last (x ∷ grants) zero g c e =
    (shift, ground arith, ground arith, ground arith)
Chain-start first shift last (x ∷ grants) (suc i) g c e =
    let again : Chain ((first + (shift + x.size)) % 2 ^ 32) grants last =
      subst (λ n. Chain n grants last) (omega arith) c.1 in
    let (before, p, q, r) = Chain-start first (shift + x.size) last grants i g again e in
    (before, p, omega arith, omega arith)

Chain-places :
    (first shift last : ℕ) (grants : List Grant) (i j : ℕ) (g h : Grant)
    → Chain ((first + shift) % 2 ^ 32) grants last
    → get_elem? grants i ≡ some g
    → get_elem? grants j ≡ some h
    → i < j
    → (a : ℕ) × (b : ℕ) × (g.start ≡ (first + a) % 2 ^ 32)
      × (h.start ≡ (first + b) % 2 ^ 32)
      × (shift ≤ a)
      × (a + g.size ≤ b)
      × (b + h.size ≤ shift + sizes grants)
Chain-places first shift last [] i j g h c e d l = absurd (ground arith)
Chain-places first shift last (x ∷ grants) i zero g h c e d l = absurd (omega arith)
Chain-places first shift last (x ∷ grants) zero (suc j) g h c e d l =
    let again : Chain ((first + (shift + x.size)) % 2 ^ 32) grants last =
      subst (λ n. Chain n grants last) (omega arith) c.1 in
    let (b, p, q, r) = Chain-start first (shift + x.size) last grants j h again d in
    (shift, b, ground arith, p, ground arith, ground arith, omega arith)
Chain-places first shift last (x ∷ grants) (suc i) (suc j) g h c e d l =
    let again : Chain ((first + (shift + x.size)) % 2 ^ 32) grants last =
      subst (λ n. Chain n grants last) (omega arith) c.1 in
    let (a, b, p, q, r, t, u) =
      Chain-places first (shift + x.size) last grants i j g h again e d (omega arith) in
    (a, b, p, q, omega arith, t, omega arith)

-- Of two sequences that the server grants in any number of rounds, while it has granted 2^32 numbers
-- at most, no number of the first is one of the second.
pub serve_distinct :
    {World : Type 0} (k : Calls World) (rounds fuel first last : ℕ) (w v : World)
    (grants : List Grant) (i j x y : ℕ) (g h : Grant)
    → first < 2 ^ 32
    → serve k rounds fuel first w ≡ some (grants, last, v)
    → sizes grants ≤ 2 ^ 32
    → get_elem? grants i ≡ some g
    → get_elem? grants j ≡ some h
    → i < j
    → x < g.size
    → y < h.size
    → (g.start + x) % 2 ^ 32 ≢ (h.start + y) % 2 ^ 32
serve_distinct k rounds fuel first last w v grants i j x y g h f e m p q l gx hy =
    let chain : Chain ((first + 0) % 2 ^ 32) grants last =
      subst (λ n. Chain n grants last) (omega arith)
        (subst (Granted first) e (serve-Granted k rounds fuel first w)) in
    let (a, b, ga, hb, _, ab, bh) = Chain-places first 0 last grants i j g h chain p q l in
    λ same. absurd (omega arith)
