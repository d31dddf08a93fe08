-- ===== src/Ui/Controls/Labels.antt =====
-- Every control has its label, and is described by exactly the message that is shown for it.
use punah_pustak.Common.{
  ◌≡◌, refl, String, Bool, true, false, Option, none, some, List, [], ◌∷◌, truthy, or_else, arith,
  eq_iff, Bool-cases, inl, inr, if◌then◌else◌,
}
use text.Mathlib.TextLemmas.{append-eq-nil_iff}
use punah_pustak.Js.{◌⧺◌}
use punah_pustak.Ui.Controls.{Control, ControlProps, Message, input, select, description_field}

-- What assistive technology is told of a control agrees with what is shown: no message, and nothing to be described by;
-- or one message, by whose id the control is described, and which is an alert exactly if the control is invalid.
abbrev pub IsTied : Option String → Bool → List Message → Type 0
IsTied described invalid [] = (described ≡ none) × (invalid ≡ false)
IsTied described invalid (m ∷ []) = (described ≡ some m.id) × (invalid ≡ m.is_alert)
IsTied described invalid (_ ∷ _ ∷ _) = ⊥

abbrev pub IsLabelled : Control → Type 0
IsLabelled c = (c.label_for ≡ c.id) × IsTied c.described_by c.is_invalid c.messages

-- An id with an ending is not empty.
truthy-append : (s t : String) → truthy t ≡ true → truthy (s ⧺ t) ≡ true
truthy-append s t h =
    ground (arith, eq_iff (s ⧺ t) "", eq_iff t "", append-eq-nil_iff {p = s} {q = t})

truthy_error : (id : String) → truthy (id ⧺ "-error") ≡ true
truthy_error id = truthy-append id "-error" refl

truthy_hint : (id : String) → truthy (id ⧺ "-hint") ≡ true
truthy_hint id = truthy-append id "-hint" refl

shown_id : (t : String) → truthy t ≡ true → (if truthy t then some t else none) ≡ some t
shown_id t h = rw h refl

abbrev props_of : Option String → Bool → (error hint : Option String) → ControlProps
props_of id required error hint = record {
  id = id;
  required = required;
  error = error;
  hint = hint;
}

input_tied :
    (generated : String) (id : Option String) (required : Bool) (error hint : Option String)
    → IsLabelled (input generated (props_of id required error hint))
unfolding input
input_tied generated id required none none = (refl, (refl, refl))
input_tied generated id required none (some h) = elim (Bool-cases (truthy h)) [
  | inl shown ↦
      rw (shown, truthy_hint (or_else id generated))
        (refl, (shown_id _ (truthy_hint (or_else id generated)), refl))
  | inr empty ↦ rw (empty, empty) (refl, (refl, refl))
]
input_tied generated id required (some e) none = elim (Bool-cases (truthy e)) [
  | inl shown ↦
      rw (shown, truthy_error (or_else id generated))
        (refl, (shown_id _ (truthy_error (or_else id generated)), refl))
  | inr empty ↦ rw (empty, empty) (refl, (refl, refl))
]
input_tied generated id required (some e) (some h) = elim (Bool-cases (truthy e)) [
  | inl shown ↦ elim (Bool-cases (truthy h)) [
    | inl t ↦
        rw (shown, t, truthy_error (or_else id generated))
          (refl, (shown_id _ (truthy_error (or_else id generated)), refl))
    | inr t ↦
        rw (shown, t, truthy_error (or_else id generated))
          (refl, (shown_id _ (truthy_error (or_else id generated)), refl))
  ]
  | inr empty ↦ elim (Bool-cases (truthy h)) [
    | inl t ↦
        rw (empty, empty, t, truthy_hint (or_else id generated))
          (refl, (shown_id _ (truthy_hint (or_else id generated)), refl))
    | inr t ↦ rw (empty, empty, t, t) (refl, (refl, refl))
  ]
]

input-IsLabelled : (generated : String) (props : ControlProps) → IsLabelled (input generated props)
input-IsLabelled generated props =
    input_tied generated props.id props.required props.error props.hint

description_tied : (error : Option String) → IsLabelled (description_field error)
unfolding description_field
description_tied none = (refl, (refl, refl))
description_tied (some e) = elim (Bool-cases (truthy e)) [
  | inl shown ↦ rw shown (refl, (refl, refl))
  | inr empty ↦ rw empty (refl, (refl, refl))
]

-- Whatever label, error, hint and id a page gives to an `Input` or a `Select`, and whatever error the description of a
-- listing has, the label is that of the control; at most one message is shown; the control is described by exactly
-- the message that is shown, and by nothing where none is; and it is marked as invalid exactly if that message is an
-- error, which is announced.
pub controls-IsLabelled :
    (generated : String) (props : ControlProps) (placeholder : Option String)
    → (options : List (String × String))
    → IsLabelled (input generated props)
      × IsLabelled (select generated props placeholder options).control
      × IsLabelled (description_field props.error)
unfolding select
controls-IsLabelled generated props placeholder options = (
  input-IsLabelled generated props,
  input-IsLabelled generated props,
  description_tied props.error,
)
