-- ===== src/Pages/Account.antt =====
-- What frontend/src/pages/LoginPage.tsx, RegisterPage.tsx and ChangePasswordPage.tsx render, in `AuthShell`. Their forms'
-- states and submissions are in `Ui.PasswordForm`, the redirect of the login page in `App`.
mod Tests
use punah_pustak.Common.{String, Bool, true, false, lookup, List, [], ◌∷◌, ◌++◌}
use punah_pustak.Ui.View.{View, heading, text, link, field, map_events}
use punah_pustak.Ui.Parts.{loading_button, error_alert}
use punah_pustak.Ui.PasswordForm.{FormState, Credentials, Registration, PasswordChange}
use punah_pustak.Ui.PasswordForm.Screen.{PasswordEvent, password_change_form}

pub data AccountEvent : Type 0 where
  email_change password_change name_change : String → AccountEvent
  submit : AccountEvent
  in_password_form : PasswordEvent → AccountEvent

unfoldable pub login_view : Credentials → FormState → View AccountEvent
login_view typed s =
    heading "Log in"
    ∷ text "To list copies and manage the ones you’ve listed. Browsing doesn’t need an account."
    ∷ field "Email" typed.email (lookup "email" s.field_errors) email_change
    ∷ field "Password" typed.password (lookup "password" s.field_errors) password_change
    ∷ (error_alert s.form_error
        ++ (loading_button "Log in" false s.is_submitting submit
            ∷ text "No account?"
            ∷ link "/register" "Register"
            ∷ text ". It takes an email, a display name and a password."
            ∷ []))

abbrev registered : View AccountEvent
registered =
    heading "Account created"
    ∷ text "Your account is ready. Log in to list your first copy."
    ∷ link "/login" "Log in"
    ∷ []

abbrev registration_form : Registration → FormState → View AccountEvent
registration_form typed s =
    heading "Register"
    ∷ text
        "An account lets you list copies for other readers and manage them. You don’t need one to browse."
    ∷ field "Display name" typed.display_name (lookup "display_name" s.field_errors) name_change
    ∷ field "Email" typed.email (lookup "email" s.field_errors) email_change
    ∷ field "Password" typed.password (lookup "password" s.field_errors) password_change
    ∷ text "At least 10 characters."
    ∷ (error_alert s.form_error
        ++ (loading_button "Register" false s.is_submitting submit
            ∷ text "Already have an account?"
            ∷ link "/login" "Log in"
            ∷ []))

unfoldable pub register_view : (is_registered : Bool) → Registration → FormState → View AccountEvent
register_view true typed s = registered
register_view false typed s = registration_form typed s

unfoldable pub change_password_view : PasswordChange → FormState → View AccountEvent
change_password_view typed s =
    heading "Change your password"
    ∷ text
        "An administrator reset your password. Enter the temporary password you were given, then choose a new one, before continuing."
    ∷ map_events in_password_form (password_change_form "Temporary password" typed s)
