-- ===== src/Timers/Written.antt =====
-- itimerspecFromStr() reads the form that its comment describes.
use computer_science_notes.Base.{cut_at-append}
use computer_science_notes.Base.{contains-append}
use computer_science_notes.Base.{suffix}
use computer_science_notes.Base.{contains}
use computer_science_notes.Base.{
  ℕ, Bool, false, Option, none, some, List, [], ◌∷◌, ◌++◌, ◌≡◌, refl, arith, ap, ◌∙◌,
}
use computer_science_notes.Base.Int.{ℤ, pos}
use computer_science_notes.Timers.Setting.{
  Itimerspec, colon, slash_char, optional_number, read_part, read_interval, itimerspec_from_str,
}

-- The number of a component that may be left out.
abbrev pub number_or_zero : (List ℕ → ℤ) → Option (List ℕ) → ℤ
number_or_zero atoi none = pos 0
number_or_zero atoi (some l) = atoi l

-- `sec[/nanosec]`, and one such part with another one behind a colon.
abbrev pub part_text : List ℕ → Option (List ℕ) → List ℕ
part_text sec nsec = sec ++ suffix slash_char nsec

abbrev pub setting_text : List ℕ → Option (List ℕ) → List ℕ
setting_text value interval = value ++ suffix colon interval

abbrev pub contains_in : ℕ → Option (List ℕ) → Bool
contains_in sep none = false
contains_in sep (some l) = contains sep l

contains-part_text :
    (sec : List ℕ) (nsec : Option (List ℕ))
    → contains colon sec ≡ false
    → contains_in colon nsec ≡ false
    → contains colon (part_text sec nsec) ≡ false
contains-part_text sec none h g = contains-append colon sec [] ∙ ground arith
contains-part_text sec (some l) h g = contains-append colon sec (slash_char ∷ l) ∙ ground arith

module _ (atoi : List ℕ → ℤ) where
  optional_number_lem : (l : Option (List ℕ)) → optional_number atoi l ≡ number_or_zero atoi l
  unfolding optional_number
  optional_number_lem none = refl
  optional_number_lem (some l) = refl

  read_part-part_text :
      (sec : List ℕ) (nsec : Option (List ℕ))
      → contains slash_char sec ≡ false
      → read_part atoi (part_text sec nsec) ≡ (atoi sec, number_or_zero atoi nsec)
  unfolding read_part
  read_part-part_text sec nsec h =
      ap (λ halves. (atoi halves.0, optional_number atoi halves.1))
        (cut_at-append slash_char sec nsec h)
      ∙ ap (λ z. (atoi sec, z)) (optional_number_lem nsec)

  -- Of a text `sec[/nanosec][:sec[/nanosec]]`, whose seconds contain no colon and no slash and
  -- whose first nanoseconds contain no colon, each field is atoi() of its component, and 0 where
  -- the component is left out: first without the interval, then with it.
  pub itimerspec_from_str-setting_text :
      (sec isec : List ℕ) (nsec insec : Option (List ℕ))
      → contains slash_char sec ≡ false
      → contains colon sec ≡ false
      → contains_in colon nsec ≡ false
      → contains slash_char isec ≡ false
      → (itimerspec_from_str atoi (setting_text (part_text sec nsec) none) ≡ record {
        value_sec = atoi sec;
        value_nsec = number_or_zero atoi nsec;
        interval_sec = pos 0;
        interval_nsec = pos 0;
      })
        × (itimerspec_from_str atoi
              (setting_text (part_text sec nsec) (some (part_text isec insec)))
            ≡ record {
              value_sec = atoi sec;
              value_nsec = number_or_zero atoi nsec;
              interval_sec = atoi isec;
              interval_nsec = number_or_zero atoi insec;
            })
  unfolding itimerspec_from_str read_interval
  itimerspec_from_str-setting_text sec isec nsec insec h hc g hi =
      let free = contains-part_text sec nsec hc g in
      let value = read_part-part_text sec nsec h in
      let interval = read_part-part_text isec insec hi in
      (
        ap setting (cut_at-append colon (part_text sec nsec) none free)
            ∙ ap (λ v. both v (pos 0, pos 0)) value,
        ap setting (cut_at-append colon (part_text sec nsec) (some (part_text isec insec)) free)
            ∙ ap (λ v. both v (read_part atoi (part_text isec insec))) value
            ∙ ap (both (atoi sec, number_or_zero atoi nsec)) interval,
      )
    where
      both : ℤ × ℤ → ℤ × ℤ → Itimerspec
      both v i = record {
        value_sec = v.0;
        value_nsec = v.1;
        interval_sec = i.0;
        interval_nsec = i.1;
      }

      setting : List ℕ × Option (List ℕ) → Itimerspec
      setting p = both (read_part atoi p.0) (read_interval atoi p.1)
