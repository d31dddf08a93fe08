-- ===== src/Ui/PasswordForm/Tests.antt =====
-- The password forms on concrete inputs.
use punah_pustak.Common.{false, some, []}
use punah_pustak.Ui.PasswordForm.{FormState, PasswordChange, Registration}

abbrev fresh : FormState
fresh = record { field_errors = []; form_error = some "old"; is_submitting = false; done = 0 }

abbrev change : PasswordChange
change = record { current_password = "old"; new_password = "correct-horse" }

abbrev short : Registration
short = record { email = "a@x.org"; password = "123456789"; display_name = "A" }
