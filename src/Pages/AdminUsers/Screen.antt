-- ===== src/Pages/AdminUsers/Screen.antt =====
-- What frontend/src/pages/admin/AdminUsersPage.tsx renders: the accounts, as a table or as records,
-- and the two modals.
use punah_pustak.Common.{
  ℕ, String, Bool, true, false, not, Option, none, some, List, [], ◌∷◌, ◌++◌, is_some, truthy,
  truthy_option, or_else, if◌then◌else◌,
}
use punah_pustak.Api.Errors.{Thrown}
use punah_pustak.Js.{trim, ◌⧺◌, slice_start}
use punah_pustak.Listings.Formats.{Dates}
use punah_pustak.Ui.View.{View, text, button, field, map_events}
use punah_pustak.Ui.Parts.{
  loading_button, error_alert, page_header, admin_nav, modal, query_state, loading_message,
}
use punah_pustak.Ui.Pagination.{PageEvent, on_page_change, pagination}
use punah_pustak.Pages.AdminUsers.{
  page_size, AdminUser, AdminUsers, AdminUsersEvent, suspend_close, reason_change, suspend_press,
  reset_close, reset_press, set_page, render_actions, render_status,
}

-- A page of accounts, and how the query for it stands (`useAdminUsers`): `result` is its `data`.
pub record UserQuery : Type 0 where
  pub is_pending : Bool
  pub error : Option Thrown
  pub result : Option (List AdminUser × ℕ)

module _ (dates : Dates) where
  unfoldable pub user_row :
      (is_wide : Bool) → Option String → AdminUsers → AdminUser → View AdminUsersEvent
  user_row true me s u =
      text u.display_name
      ∷ text u.email
      ∷ text (dates.format_day u.created_at)
      ∷ (render_status me u ++ (text (slice_start 8 u.id) ∷ render_actions me s u))
  user_row false me s u =
      text u.display_name
      ∷ text "Email"
      ∷ text u.email
      ∷ text "Joined"
      ∷ text (dates.format_day u.created_at)
      ∷ text "Status"
      ∷ (render_status me u ++ render_actions me s u)

  abbrev pub user_rows : Bool → Option String → AdminUsers → List AdminUser → View AdminUsersEvent
  user_rows is_wide me s [] = []
  user_rows is_wide me s (u ∷ us) = user_row is_wide me s u ++ user_rows is_wide me s us

-- `onPageChange={setPage}`
abbrev on_page : PageEvent → AdminUsersEvent
on_page (on_page_change n) = set_page n

abbrev pub email_of : Option AdminUser → String
email_of none = ""
email_of (some u) = u.email

unfoldable pub suspend_modal : AdminUsers → View AdminUsersEvent
unfolding modal
suspend_modal s =
    modal (is_some s.suspend_target) suspend_close ("Suspend " ⧺ email_of s.suspend_target ⧺ "?") (
      text
        "They will be immediately unable to log in. This requires a reason code for the audit log (FR-042)."
      ∷ field "Reason code" s.reason_code none reason_change
      ∷ (error_alert s.action_error
          ++ (button "Cancel" false suspend_close
              ∷ loading_button "Suspend" (not (truthy (trim s.reason_code))) s.is_suspending
                  suspend_press
              ∷ [])))

unfoldable pub reset_contents : Option String → AdminUsers → View AdminUsersEvent
reset_contents password s =
    if truthy_option password
    then text
        "Relay this temporary password to the user out-of-band. It will not be shown again (FR-045)."
      ∷ text (or_else password "")
      ∷ button "Done" false reset_close
      ∷ []
    else text
        "This generates a new temporary password and requires the user to change it on next login."
      ∷ (error_alert s.action_error
          ++ (button "Cancel" false reset_close
              ∷ loading_button "Reset password" false s.is_resetting reset_press
              ∷ []))

unfoldable pub reset_modal : AdminUsers → View AdminUsersEvent
unfolding modal reset_contents
reset_modal s =
    modal (is_some s.reset_target) reset_close
      ("Reset password for " ⧺ email_of s.reset_target ⧺ "?")
      (reset_contents s.temporary_password s)

abbrev headings : Bool → View AdminUsersEvent
headings true =
    text "Display name"
    ∷ text "Email"
    ∷ text "Joined"
    ∷ text "Status"
    ∷ text "ID"
    ∷ text "Actions"
    ∷ []
headings false = []

abbrev items_of : Option (List AdminUser × ℕ) → List AdminUser
items_of none = []
items_of (some d) = d.0

abbrev page_links : AdminUsers → Option (List AdminUser × ℕ) → View AdminUsersEvent
page_links s none = []
page_links s (some d) = map_events on_page (pagination s.page page_size d.1)

unfoldable pub admin_users_page :
    Dates → (is_wide : Bool) → Option String → UserQuery → AdminUsers → View AdminUsersEvent
unfolding query_state suspend_modal reset_modal pagination user_row
admin_users_page dates is_wide me query s =
    page_header "Moderation"
      "Accounts, suspensions and password resets. Each action is written to the audit log."
    ++ (admin_nav
        ++ (error_alert s.action_error
            ++ (query_state query.is_pending query.error false loading_message [] (
                  headings is_wide
                  ++ (user_rows dates is_wide me s (items_of query.result)
                      ++ page_links s query.result))
                ++ (suspend_modal s ++ reset_modal s))))
