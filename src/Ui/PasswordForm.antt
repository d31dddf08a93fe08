-- ===== src/Ui/PasswordForm.antt =====
-- frontend/src/components/PasswordChangeForm.tsx and the forms of pages/LoginPage.tsx and
-- pages/RegisterPage.tsx. Each `handleSubmit` is cut at its `await`: `submit` runs up to it and says
-- what is sent, `replied` runs from it on.
pub mod Submitting
pub mod Screen
mod Tests
use punah_pustak.Common.{
  ℕ, String, Bool, true, false, Option, none, some, List, [], ◌∷◌, Dict, ltb, if◌then◌else◌,
}
use punah_pustak.Js.{utf16_length}
use punah_pustak.Auth.{Reply, value, threw}
use punah_pustak.Ui.FormErrors.{FormErrors, to_form_errors}

abbrev pub min_password_length : ℕ
min_password_length = 10

-- The part of the state that the three forms share; `done` counts the calls of `onSuccess`.
pub record FormState : Type 0 where
  pub field_errors : Dict String
  pub form_error : Option String
  pub is_submitting : Bool
  pub done : ℕ

abbrev cleared : FormState → FormState
cleared s = record s { field_errors = []; form_error = none }

-- `catch` and `finally`.
unfoldable pub replied : {A : Type 0} → Reply A → FormState → FormState
replied (value _) s = record s { is_submitting = false; done = ℕ.suc s.done }
replied (threw t) s = record s {
  field_errors = (to_form_errors t).fields;
  form_error = (to_form_errors t).form_message;
  is_submitting = false;
}

pub record PasswordChange : Type 0 where
  pub current_password : String
  pub new_password : String

pub record Registration : Type 0 where
  pub email : String
  pub password : String
  pub display_name : String

pub record Credentials : Type 0 where
  pub email : String
  pub password : String

abbrev too_short : String → Bool
too_short p = ltb (utf16_length p) min_password_length

abbrev pub too_short_message : String
too_short_message = "Password must be at least 10 characters."

unfoldable pub submit_password_change :
    PasswordChange → FormState → FormState × Option PasswordChange
submit_password_change body s =
    if too_short body.new_password
    then (record (cleared s) { field_errors = ("new_password", too_short_message) ∷ [] }, none)
    else (record (cleared s) { is_submitting = true }, some body)

unfoldable pub submit_registration : Registration → FormState → FormState × Option Registration
submit_registration body s =
    if too_short body.password
    then (record (cleared s) { field_errors = ("password", too_short_message) ∷ [] }, none)
    else (record (cleared s) { is_submitting = true }, some body)

unfoldable pub submit_login : Credentials → FormState → FormState × Option Credentials
submit_login body s = (record (cleared s) { is_submitting = true }, some body)
