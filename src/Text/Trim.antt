-- ===== src/Text/Trim.antt =====
-- What trimming leaves alone.
use orchestration_service.Base.{ℕ, ◌≤◌, ◌≡◌, refl, Bool, false, [], ◌∷◌, length, All, arith}
use orchestration_service.Text.{Text, trim_left, trim_right, trim}

module _ (cut : ℕ → Bool) where
  pub length-trim_right-le : (s : Text) → length (trim_right cut s) ≤ length s
  unfolding trim_right
  length-trim_right-le [] = omega arith
  length-trim_right-le (c ∷ s) = ground (arith, length-trim_right-le s)

  pub length-trim_left-le : (s : Text) → length (trim_left cut s) ≤ length s
  unfolding trim_left
  length-trim_left-le [] = omega arith
  length-trim_left-le (c ∷ s) = ground (arith, length-trim_left-le s)

  pub length-trim-le : (s : Text) → length (trim cut s) ≤ length s
  unfolding trim
  length-trim-le s = omega (arith, length-trim_right-le (trim_left cut s), length-trim_left-le s)

  -- A text with no character to cut is left alone.
  pub trim_right-keep : (s : Text) → All (λ c. cut c ≡ false) s → trim_right cut s ≡ s
  unfolding trim_right
  trim_right-keep [] h = refl
  trim_right-keep (c ∷ s) h = ground (arith, trim_right-keep s h.1)

  trim_left-keep : (s : Text) → All (λ c. cut c ≡ false) s → trim_left cut s ≡ s
  unfolding trim_left
  trim_left-keep [] h = refl
  trim_left-keep (c ∷ s) h = ground arith

  pub trim-keep : (s : Text) → All (λ c. cut c ≡ false) s → trim cut s ≡ s
  unfolding trim
  trim-keep s h = rw (trim_left-keep s h) (trim_right-keep s h)
