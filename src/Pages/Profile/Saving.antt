-- ===== src/Pages/Profile/Saving.antt =====
-- What becomes of a save of the display name.
use punah_pustak.Common.{String, Bool, true, false, Option, none, [], ◌∷◌, ◌≡◌, refl}
use punah_pustak.Api.Errors.{Thrown}
use punah_pustak.Auth.{
  AuthState, authenticated, unauthenticated, Reply, value, threw, User, demands_password_change,
  resume_load, profile_loaded,
}
use punah_pustak.Ui.FormErrors.{to_form_errors}
use punah_pustak.Ui.PasswordForm.{FormState, PasswordChange}
use punah_pustak.Pages.Profile.{
  Profile, submit, update_reply, refresh_reply, name_change, handle_submit, updated, user_refreshed,
  step, run,
}
use punah_pustak.Pages.Profile.Screen.{Summary, profile_page}

-- `handleSubmit` of a button that is not loading.
abbrev submitted : Profile → Profile
submitted s = record s {
  field_errors = [];
  form_error = none;
  saved = false;
  is_updating = true;
  requests = s.display_name ∷ s.requests;
}

submits : (s : Profile) → s.is_updating ≡ false → handle_submit s ≡ submitted s
unfolding handle_submit
submits s h = rw h refl

-- With no save pending, one that the server accepts sends the name typed and ends in the session of the user that the
-- server then answers, "Saved.", no error, and an enabled button.
pub save_settles :
    (s : Profile) (u : User)
    → s.is_updating ≡ false
    → let s' = run s (submit ∷ update_reply (value tt) ∷ refresh_reply 0 (value u) ∷ []) in
      (s'.requests ≡ s.display_name ∷ s.requests)
      × (s'.auth.state ≡ authenticated u)
      × (s'.saved ≡ true)
      × (s'.form_error ≡ none)
      × (s'.is_updating ≡ false)
      × (s'.refreshes ≡ s.refreshes)
unfolding run step updated user_refreshed punah_pustak.Auth.step resume_load profile_loaded
save_settles s u h = rw (submits s h) (refl, refl, refl, refl, refl, refl)

-- Unless it is for a forced change of the password, the server's failure to answer `refreshUser` after an accepted save
-- takes the session away: the token is dropped, the visitor counts as logged out, and the page is empty.
pub failed_refresh_logs_out :
    (s : Profile) (t : Thrown)
    → s.is_updating ≡ false
    → demands_password_change t ≡ false
    → (is_pending : Bool) (error : Option Thrown) (summary : Option Summary)
      (typed : PasswordChange) (form : FormState)
    → let s' = run s (submit ∷ update_reply (value tt) ∷ refresh_reply 0 (threw t) ∷ []) in
      (s'.saved ≡ true)
      × (s'.auth.access_token ≡ none)
      × (s'.auth.state ≡ unauthenticated)
      × (profile_page is_pending error summary typed form s' ≡ [])
unfolding run step updated user_refreshed punah_pustak.Auth.step resume_load profile_loaded
    profile_page
failed_refresh_logs_out s t h d is_pending error summary typed form =
    rw (submits s h) (rw d (refl, refl, refl, refl))

-- A second save that starts before the first one's `refreshUser` is answered, and that the server then refuses, ends
-- with "Saved." set beside the error of the refusal, though the name that the field holds was not saved.
pub stale_saved :
    (s : Profile) (u : User) (name : String) (t : Thrown)
    → s.is_updating ≡ false
    → let s' = run s (
        submit
        ∷ update_reply (value tt)
        ∷ name_change name
        ∷ submit
        ∷ refresh_reply 0 (value u)
        ∷ update_reply (threw t)
        ∷ []) in
      (s'.saved ≡ true)
      × (s'.form_error ≡ (to_form_errors t).form_message)
      × (s'.field_errors ≡ (to_form_errors t).fields)
      × (s'.display_name ≡ name)
      × (s'.requests ≡ name ∷ s.display_name ∷ s.requests)
unfolding run step updated user_refreshed handle_submit punah_pustak.Auth.step resume_load
    profile_loaded
stale_saved s u name t h = rw (submits s h) (refl, refl, refl, refl, refl)
