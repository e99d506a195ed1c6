-- ===== src/Timers/Tests.antt =====
-- The text 2/5:1, with a small atoi().
use computer_science_notes.Base.{ℕ, none, some, List, [], ◌∷◌, ◌≡◌, refl, ◌-◌}
use computer_science_notes.Base.Int.{ℤ, pos}
use computer_science_notes.Timers.Setting.{itimerspec_from_str}
use computer_science_notes.Timers.Written.{
  number_or_zero, setting_text, part_text, itimerspec_from_str-setting_text,
}

-- The number of the first digit.
abbrev digit : List ℕ → ℤ
digit [] = pos 0
digit (c ∷ _) = pos (c - 48)

itimerspec_from_str-setting_text_example :
    (itimerspec_from_str digit (setting_text (part_text (50 ∷ []) (some (53 ∷ []))) none) ≡ record {
      value_sec = pos 2;
      value_nsec = number_or_zero digit (some (53 ∷ []));
      interval_sec = pos 0;
      interval_nsec = pos 0;
    })
    × (itimerspec_from_str digit
          (setting_text (part_text (50 ∷ []) (some (53 ∷ []))) (some (part_text (49 ∷ []) none)))
        ≡ record {
          value_sec = pos 2;
          value_nsec = number_or_zero digit (some (53 ∷ []));
          interval_sec = pos 1;
          interval_nsec = number_or_zero digit none;
        })
itimerspec_from_str-setting_text_example =
    itimerspec_from_str-setting_text digit (50 ∷ []) (49 ∷ []) (some (53 ∷ [])) none refl refl refl
      refl
