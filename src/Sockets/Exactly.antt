-- ===== src/Sockets/Exactly.antt =====
-- readn() of sockets/rdwrn.c gives as many bytes as were asked for.
use computer_science_notes.Base.{
  ℕ, zero, suc, ◌+◌, ◌-◌, ◌≤◌, ◌<◌, ◌≡◌, refl, sym, inl, inr, Bool-cases, Option, none, some, List,
  [], ◌∷◌, ◌++◌, length, length-append, append_assoc, ltb, min, arith, ap, ◌∙◌,
}
use computer_science_notes.Sockets.Reading.{
  ReadReply, got, interrupted, failed, ReadReturn, readn_reply, readn_loop, readn,
}
use computer_science_notes.Sockets.Stream.{View, Delivers, IsStream}

module _ {W : Type 0} (v : View W) where
  -- What readn() returns of a stream that begins with the bytes `all`, when `failures` calls had
  -- failed before: the first `n` of them, or all where there are fewer, and no read() has failed.
  -- Or -1: one read() has failed, and fewer than `n` bytes are stored. The rest is still to come.
  abbrev pub IsReadOf : ℕ → ℕ → List ℕ → Option (ReadReturn W) → Type 0
  IsReadOf failures n all none = ⊥
  IsReadOf failures n all (some (some c, stored, w)) =
      (stored ++ v.content w ≡ all)
      × (length stored ≡ c)
      × (c ≡ min n (length all))
      × (v.failures w ≡ failures)
  IsReadOf failures n all (some (none, stored, w)) =
      (length stored < n)
      × ((rest : List ℕ) × (stored ++ rest ≡ all))
      × (v.failures w ≡ suc failures)

  readn_reply_lem :
      (again : List ℕ → W → Option (ReadReturn W))
      → (failures n : ℕ) (all stored : List ℕ) (w : W)
      → ((next : List ℕ) (w' : W)
          → next ++ v.content w' ≡ all
          → v.failures w' ≡ failures
          → length next ≤ n
          → (n - length next) + v.patience w' < (n - length stored) + v.patience w
          → IsReadOf failures n all (again next w'))
      → (r : ReadReply × W) → stored ++ v.content w ≡ all
      → v.failures w ≡ failures
      → length stored < n
      → Delivers v w (n - length stored) r
      → IsReadOf failures n all (readn_reply again stored r)
  unfolding readn_reply
  readn_reply_lem again failures n all stored w ih (got [], w') e q h d =
      let ends : v.content w' ≡ v.content w = d.1 ∙ sym d.0 in
      let size : length stored ≡ length all =
        omega (arith, length-append stored (v.content w), ap length e, ap length d.0) in
      (ap (λ l. stored ++ l) ends ∙ e, refl, omega arith, d.2.0 ∙ q)
  readn_reply_lem again failures n all stored w ih (got (b ∷ bs), w') e q h d =
      ih (stored ++ b ∷ bs) w'
        (append_assoc stored (b ∷ bs) (v.content w') ∙ ap (λ l. stored ++ l) (sym d.0) ∙ e)
        (d.3.0 ∙ q) (omega (arith, length-append stored (b ∷ bs), d.1))
        (omega (arith, length-append stored (b ∷ bs), d.1, d.2))
  readn_reply_lem again failures n all stored w ih (interrupted, w') e q h d =
      ih stored w' (ap (λ l. stored ++ l) d.0 ∙ e) (d.2 ∙ q) (omega arith) (omega (arith, d.1))
  readn_reply_lem again failures n all stored w ih (failed, w') e q h d =
      (h, (v.content w, e), d.0 ∙ ap suc q)

module _ {W : Type 0} (read : W → ℕ → ReadReply × W) (s : IsStream read) where
  readn_loop_lem :
      (fuel failures n : ℕ) (all stored : List ℕ) (w : W)
      → stored ++ s.view.content w ≡ all
      → s.view.failures w ≡ failures
      → length stored ≤ n
      → (n - length stored) + s.view.patience w < fuel
      → IsReadOf s.view failures n all (readn_loop read fuel n stored w)
  unfolding readn_loop
  readn_loop_lem zero failures n all stored w e q h f = absurd (omega arith)
  readn_loop_lem (suc fuel) failures n all stored w e q h f =
      elim (Bool-cases (ltb (length stored) n)) [
        | inl more ↦
            rw (more, IsReadOf)
              (readn_reply_lem s.view (readn_loop read fuel n) failures n all stored w
                (λ next w' e' q' h' m.
                  readn_loop_lem fuel failures n all next w' e' q' h' (omega arith))
                (read w (n - length stored)) e q (ground arith) (s.delivers w _ (ground arith)))
        | inr full ↦
            rw (full, IsReadOf)
              (e, refl, grind (arith, length-append stored (s.view.content w), ap length e), q)
      ]

  -- On a stream, readn() returns when it is given a round for each byte, one for each interruption
  -- and one more. It returns `n` bytes, or as many as there are before the end of the file, leaves
  -- the rest, and no read() has failed: neither interruptions nor the sizes of the pieces make a
  -- difference. Or it returns -1: then one read() has failed, and fewer than `n` bytes from the
  -- start of the stream are stored.
  pub readn_lem :
      (fuel n : ℕ) (w : W)
      → n + s.view.patience w < fuel
      → IsReadOf s.view (s.view.failures w) n (s.view.content w) (readn read fuel n w)
  unfolding readn
  readn_lem fuel n w f =
      readn_loop_lem fuel (s.view.failures w) n (s.view.content w) [] w refl refl (omega arith)
        (omega arith)
