-- ===== src/Pages/Account/Tests.antt =====
-- The pages of a visitor without a session.
use punah_pustak.Common.{◌≡◌, refl, true, false, none, []}
use punah_pustak.Ui.View.{has_link}
use punah_pustak.Ui.PasswordForm.{FormState, Registration}
use punah_pustak.Pages.Account.{register_view}

abbrev untouched : FormState
untouched = record { field_errors = []; form_error = none; is_submitting = false; done = 0 }

abbrev nobody : Registration
nobody = record { email = ""; password = ""; display_name = "" }

login_follows : has_link "/login" (register_view true nobody untouched) ≡ true
unfolding register_view
login_follows = refl
