-- ===== src/Ui/PasswordForm/Screen.antt =====
-- What frontend/src/components/PasswordChangeForm.tsx renders, with the current and the new password typed so far.
use punah_pustak.Common.{String, false, lookup, [], ◌∷◌, ◌++◌}
use punah_pustak.Ui.View.{View, text, field}
use punah_pustak.Ui.Parts.{loading_button, error_alert}
use punah_pustak.Ui.PasswordForm.{FormState, PasswordChange}

pub data PasswordEvent : Type 0 where
  current_change : String → PasswordEvent
  new_change : String → PasswordEvent
  password_submit : PasswordEvent

unfoldable pub password_change_form :
    (label : String) → PasswordChange → FormState → View PasswordEvent
password_change_form label typed s =
    field label typed.current_password (lookup "current_password" s.field_errors) current_change
    ∷ field "New password" typed.new_password (lookup "new_password" s.field_errors) new_change
    ∷ text "At least 10 characters."
    ∷ (error_alert s.form_error
        ++ (loading_button "Change password" false s.is_submitting password_submit ∷ []))
