-- ===== src/Listings/Labels.antt =====
-- frontend/src/components/ConditionMeter.tsx and `isSubstantiveNote`: the five-step meter of a
-- condition, and the test on a seller's note.
use punah_pustak.Common.{
  ℕ, zero, suc, ◌≡◌, refl, ltb, String, Bool, true, false, List, [], ◌∷◌, arith, lookup, or_else,
  sym, ap, ◌∙◌,
}
use punah_pustak.Listings.{
  Condition, new, like_new, good, fair, poor, condition_score, condition_labels, condition_value,
}

-- The marks of the meter, filled or hollow, and its word.
pub record Meter : Type 0 where
  pub marks : List Bool
  pub word : String

-- `Array.from({ length: n }, (_, index) => index < score)`
abbrev marks_from : ℕ → ℕ → ℕ → List Bool
marks_from zero index score = []
marks_from (suc n) index score = ltb index score ∷ marks_from n (suc index) score

unfoldable pub condition_meter : Condition → Meter
condition_meter c = record {
  marks = marks_from 5 0 (condition_score c);
  word = or_else (lookup (condition_value c) condition_labels) "";
}

abbrev pub filled : List Bool → ℕ
filled [] = 0
filled (true ∷ bs) = suc (filled bs)
filled (false ∷ bs) = filled bs

-- Filled marks are never to the right of a hollow one.
abbrev pub IsBar : List Bool → Type 0
IsBar [] = Unit
IsBar (true ∷ bs) = IsBar bs
IsBar (false ∷ bs) = filled bs ≡ 0

-- The meter of each condition is a bar of five marks, as many filled as the score says.
pub meter_scale :
    (c : Condition)
    → (filled (condition_meter c).marks ≡ condition_score c) × IsBar (condition_meter c).marks
unfolding condition_meter
meter_scale new = (refl, tt)
meter_scale like_new = (refl, refl)
meter_scale good = (refl, refl)
meter_scale fair = (refl, refl)
meter_scale poor = (refl, refl)

score_injective : (c d : Condition) → condition_score c ≡ condition_score d → c ≡ d
score_injective c d h = ground arith

-- Two conditions with the same marks are the same condition: the meter reads without its word.
pub meter_injective :
    (c d : Condition) → (condition_meter c).marks ≡ (condition_meter d).marks → c ≡ d
meter_injective c d h =
    score_injective c d (sym (meter_scale c).0 ∙ ap filled h ∙ (meter_scale d).0)
