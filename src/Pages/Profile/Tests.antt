-- ===== src/Pages/Profile/Tests.antt =====
-- A reader's profile page.
use punah_pustak.Common.{false, none, some, []}
use punah_pustak.Auth
use punah_pustak.Auth.{Auth, authenticated, unauthenticated, value, threw, User}
use punah_pustak.App.Samples.{reader}
use punah_pustak.Ui.PasswordForm.{FormState, PasswordChange}
use punah_pustak.Pages.Profile.{Profile, mount}

abbrev session : Auth
session = record (punah_pustak.Auth.initial) {
  state = authenticated reader;
  access_token = some "t";
}

abbrev opened : Profile
opened = mount session

abbrev typed : PasswordChange
typed = record { current_password = ""; new_password = "" }

abbrev form : FormState
form = record { field_errors = []; form_error = none; is_submitting = false; done = 0 }
