-- ===== src/Ui/FormErrors.antt =====
-- frontend/src/lib/formErrors.ts and `getErrorMessage` of components/QueryState.tsx: what a form or
-- a page shows for an error.
use punah_pustak.Common.{
  ◌≡◌, ◌≢◌, ◌↔◌, refl, String, Option, none, some, List, [], ◌∷◌, Dict, lookup, assign,
  lookup-assign, keys, All, or_else, arith, eq_iff,
}
use punah_pustak.Api.Errors.{ApiError, Thrown, api, raised, other}

pub record FormErrors : Type 0 where
  pub fields : Dict String
  pub form_message : Option String

abbrev pub generic_message : String
generic_message = "Something went wrong. Please try again."

-- The loop over `Object.entries(error.fields)`.
unfoldable pub first_messages : Dict (List String) → Dict String → Dict String
first_messages [] fields = fields
first_messages ((field, []) ∷ rest) fields = first_messages rest fields
first_messages ((field, m ∷ _) ∷ rest) fields = first_messages rest (assign field m fields)

abbrev message_unless : Dict String → String → Option String
message_unless [] m = some m
message_unless (_ ∷ _) m = none

unfoldable pub to_form_errors : Thrown → FormErrors
to_form_errors (api e) =
    let fields = first_messages (or_else e.fields []) [] in
    record { fields = fields; form_message = message_unless fields e.message }
to_form_errors (raised _) = record { fields = []; form_message = some generic_message }
to_form_errors other = record { fields = []; form_message = some generic_message }

unfoldable pub get_error_message : Thrown → String
get_error_message (api e) = e.message
get_error_message (raised m) = m
get_error_message other = generic_message

-- An object's keys are distinct.
abbrev pub HasDistinctKeys {ℓ} : {V : Type ℓ} → Dict V → Type 0
HasDistinctKeys [] = Unit
HasDistinctKeys ((k, _) ∷ d) = All (λ j. k ≢ j) (keys d) × HasDistinctKeys d

abbrev pub head_of : Option (List String) → Option String
head_of none = none
head_of (some []) = none
head_of (some (m ∷ _)) = some m

-- `a ?? b` between options
abbrev first_of_two : Option String → Option String → Option String
first_of_two none b = b
first_of_two (some a) b = some a

lookup_absent {ℓ} :
    {V : Type ℓ} (k : String) (d : Dict V) → All (λ j. k ≢ j) (keys d) → lookup k d ≡ none
lookup_absent k [] h = refl
lookup_absent k ((j, v) ∷ d) h = ground (arith, eq_iff j k, lookup_absent k d h.1)

lookup-first_messages :
    (k : String) (d : Dict (List String)) (fields : Dict String)
    → HasDistinctKeys d
    → lookup k (first_messages d fields) ≡ first_of_two (head_of (lookup k d)) (lookup k fields)
unfolding first_messages
lookup-first_messages k [] fields h = refl
lookup-first_messages k ((j, []) ∷ d) fields h =
    ground (arith, eq_iff j k, lookup_absent j d h.0, lookup-first_messages k d fields h.1)
lookup-first_messages k ((j, m ∷ ms) ∷ d) fields h = ground (
  arith,
  eq_iff j k,
  lookup_absent j d h.0,
  lookup-assign j k m fields,
  lookup-first_messages k d (assign j m fields) h.1,
)

-- For an API error whose `fields` object is `d`, each field shows its first message, and shows
-- nothing if the server gave it none.
pub field_message :
    (e : ApiError) (d : Dict (List String)) (k : String)
    → e.fields ≡ some d
    → HasDistinctKeys d
    → lookup k (to_form_errors (api e)).fields ≡ head_of (lookup k d)
unfolding to_form_errors
field_message e d k f h = rw f (ground (arith, lookup-first_messages k d [] h))

message_unless_iff :
    (fields : Dict String) (m : String) → (message_unless fields m ≡ none) ↔ (fields ≢ [])
message_unless_iff [] m = (λ e. cc, λ h. absurd (h refl))
message_unless_iff (f ∷ fs) m = (λ _ e. cc, λ _. refl)

-- Whatever was thrown, the form shows something: a message of its own exactly when no field has one.
pub always_shown :
    (t : Thrown) → ((to_form_errors t).form_message ≡ none) ↔ ((to_form_errors t).fields ≢ [])
unfolding to_form_errors
always_shown (api e) = message_unless_iff (first_messages (or_else e.fields []) []) e.message
always_shown (raised m) = message_unless_iff [] generic_message
always_shown other = message_unless_iff [] generic_message
