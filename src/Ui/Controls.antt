-- ===== src/Ui/Controls.antt =====
-- frontend/src/components/Input.tsx, Select.tsx and the description field of ListingForm.tsx: how a control is tied to
-- its label and to the message below it; lib/cn.ts, which joins the ids.
--
-- `none` stands for `undefined`, `false` and `null`. The id that React's `useId` generates is a parameter.
pub mod Labels
mod Tests
use punah_pustak.Common.{
  String, Bool, true, false, not, ◌&&◌, Option, none, some, List, [], ◌∷◌, ◌++◌, map, truthy,
  truthy_option, or_else, if◌then◌else◌,
}
use punah_pustak.Js.{◌⧺◌}

-- `classes.filter(Boolean)`
abbrev truthy_classes : List (Option String) → List String
truthy_classes [] = []
truthy_classes (none ∷ cs) = truthy_classes cs
truthy_classes (some c ∷ cs) = if truthy c then c ∷ truthy_classes cs else truthy_classes cs

-- `.join(" ")`
abbrev join : List String → String
join [] = ""
join (c ∷ []) = c
join (c ∷ d ∷ cs) = c ⧺ (" " ⧺ join (d ∷ cs))

abbrev pub cn : List (Option String) → String
cn classes = join (truthy_classes classes)

-- `text && value`
abbrev and_text : Option String → String → Option String
and_text none value = none
and_text (some t) value = if truthy t then some value else some t

-- `text || undefined`
abbrev or_undefined : String → Option String
or_undefined t = if truthy t then some t else none

-- A paragraph below a control; `role="alert"` if it is an error.
pub record Message : Type 0 where
  pub id : String
  pub message : String
  pub is_alert : Bool

pub record Control : Type 0 where
  pub id : String
  pub label_for : String
  pub has_mark : Bool
  pub is_invalid : Bool
  pub described_by : Option String
  pub messages : List Message

pub record ControlProps : Type 0 where
  pub id : Option String
  pub required : Bool
  pub error : Option String
  pub hint : Option String

-- `{hint && !error && <p id={hintId}>…</p>}`
abbrev hint_message : (id : String) → (hint error : Option String) → List Message
hint_message id none error = []
hint_message id (some h) error =
    if truthy h && not (truthy_option error)
    then record { id = id; message = h; is_alert = false } ∷ []
    else []

-- `{error && <p id={errorId} role="alert">…</p>}`
abbrev error_message : (id : String) → Option String → List Message
error_message id none = []
error_message id (some e) =
    if truthy e then record { id = id; message = e; is_alert = true } ∷ [] else []

-- `hint && !error && hintId`
abbrev hint_class : (hint error : Option String) → String → Option String
hint_class hint error id = if truthy_option error then none else and_text hint id

unfoldable pub input : (generated : String) → ControlProps → Control
input generated props =
    let id = or_else props.id generated in
    record {
      id = id;
      label_for = id;
      has_mark = props.required;
      is_invalid = truthy_option props.error;
      described_by = or_undefined (
          cn (
            and_text props.error (id ⧺ "-error")
            ∷ hint_class props.hint props.error (id ⧺ "-hint")
            ∷ []));
      messages =
          hint_message (id ⧺ "-hint") props.hint props.error
          ++ error_message (id ⧺ "-error") props.error;
    }

-- An option of a select, as its value and its text.
pub record SelectControl : Type 0 where
  pub control : Control
  pub select_options : List (String × String)

abbrev placeholder_option : Option String → List (String × String)
placeholder_option none = []
placeholder_option (some p) = if truthy p then ("", p) ∷ [] else []

unfoldable pub select :
    (generated : String)
    → ControlProps
    → (placeholder : Option String) → List (String × String)
    → SelectControl
unfolding input
select generated props placeholder options = record {
  control = input generated props;
  select_options = placeholder_option placeholder ++ options;
}

-- The `textarea` of `ListingForm`, with `fieldError("description")`.
unfoldable pub description_field : Option String → Control
description_field error = record {
  id = "listing-description";
  label_for = "listing-description";
  has_mark = true;
  is_invalid = truthy_option error;
  described_by = if truthy_option error then some "listing-description-error" else none;
  messages = error_message "listing-description-error" error;
}
