-- ===== src/Pages/Profile/Screen.antt =====
-- What frontend/src/pages/ProfilePage.tsx renders.
use punah_pustak.Common.{ℕ, String, Bool, true, false, Option, none, some, [], ◌∷◌, ◌++◌, lookup}
use punah_pustak.Api.Errors.{Thrown}
use punah_pustak.Auth.{
  AuthState, authenticated, unauthenticated, loading, password_change_required, User,
}
use punah_pustak.Ui.View.{View, heading, text, counts, status, link, field, map_events, when}
use punah_pustak.Ui.Parts.{page_header, query_state, loading_message, loading_button, error_alert}
use punah_pustak.Ui.PasswordForm.{FormState, PasswordChange}
use punah_pustak.Ui.PasswordForm.Screen.{PasswordEvent, password_change_form}
use punah_pustak.Pages.Profile.{Profile}

pub data PageEvent : Type 0 where
  name_typed : String → PageEvent
  save_press : PageEvent
  in_password_form : PasswordEvent → PageEvent

-- `ListingStatusSummary`
pub record Summary : Type 0 where
  pub available : ℕ
  pub sold : ℕ
  pub deleted : ℕ

abbrev account_section : User → Profile → View PageEvent
account_section u s =
    heading "Account"
    ∷ text u.email
    ∷ text "Email can't be changed."
    ∷ field "Display name" s.display_name (lookup "display_name" s.field_errors) name_typed
    ∷ text "Shown to buyers on every copy you list."
    ∷ (error_alert s.form_error
        ++ (when s.saved (status "Saved." ∷ [])
            ++ (loading_button "Save changes" false s.is_updating save_press ∷ [])))

abbrev copies : Option Summary → View PageEvent
copies none = []
copies (some m) =
    counts "{} on offer" (m.available ∷ [])
    ∷ counts "{} sold" (m.sold ∷ [])
    ∷ counts "{} removed" (m.deleted ∷ [])
    ∷ link "/my-listings" "Manage listings"
    ∷ []

abbrev password_section : Bool → PasswordChange → FormState → View PageEvent
password_section true typed form = heading "Password" ∷ status "Password changed." ∷ []
password_section false typed form =
    heading "Password"
    ∷ map_events in_password_form (password_change_form "Current password" typed form)

module _ (is_pending : Bool) (error : Option Thrown) (summary : Option Summary)
    (typed : PasswordChange) (form : FormState) where
  abbrev page_of : AuthState → Profile → View PageEvent
  page_of (authenticated u) s =
      page_header u.display_name u.email
      ++ (account_section u s
          ++ (heading "Your copies"
              ∷ (query_state is_pending error false loading_message [] (copies summary)
                  ++ password_section s.password_changed typed form)))
  page_of loading s = []
  page_of unauthenticated s = []
  page_of password_change_required s = []

  unfoldable pub profile_page : Profile → View PageEvent
  profile_page s = page_of s.auth.state s
