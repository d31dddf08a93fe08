-- ===== src/Ui/PasswordForm/Submitting.antt =====
-- What the password forms send, and what they show when the server refuses.
use punah_pustak.Common.{
  ◌≤◌, ◌≡◌, ◌≢◌, ◌⊎◌, inl, inr, refl, String, true, false, Option, none, some, [], arith,
}
use punah_pustak.Js.{utf16_length}
use punah_pustak.Api.Errors.{Thrown}
use punah_pustak.Auth.{threw}
use punah_pustak.Ui.FormErrors.{to_form_errors, always_shown}
use punah_pustak.Ui.PasswordForm.{FormState, replied, PasswordChange, submit_password_change}

-- What a form that is not submitting shows of a failure.
abbrev pub ShowsError : FormState → Type 0
ShowsError s = (s.field_errors ≢ []) ⊎ (s.form_error ≢ none)

-- A new password is sent exactly as it was typed and only if it has at least ten UTF-16 units; the
-- form then waits with no error shown.
pub password_change_sent :
    (body sent : PasswordChange) (s : FormState)
    → (submit_password_change body s).1 ≡ some sent
    → (sent ≡ body)
      × (10 ≤ utf16_length body.new_password)
      × ((submit_password_change body s).0.is_submitting ≡ true)
      × ((submit_password_change body s).0.field_errors ≡ [])
      × ((submit_password_change body s).0.form_error ≡ none)
unfolding submit_password_change
password_change_sent body sent s h = ground arith

-- After the server's answer, whatever it is, the form no longer waits; on an error it shows
-- something and `onSuccess` is not called.
pub failure_shown :
    (t : Thrown) (s : FormState)
    → ((replied {A = Unit {0}} (threw t) s).is_submitting ≡ false)
      × ((replied {A = Unit {0}} (threw t) s).done ≡ s.done)
      × ShowsError (replied {A = Unit {0}} (threw t) s)
unfolding replied
failure_shown t s = (refl, refl, shows (to_form_errors t).form_message refl)
  where
    shows :
        (m : Option String)
        → (to_form_errors t).form_message ≡ m
        → ((to_form_errors t).fields ≢ []) ⊎ ((to_form_errors t).form_message ≢ none)
    shows none e = inl ((always_shown t).0 e)
    shows (some m) e = inr (λ f. cc)
