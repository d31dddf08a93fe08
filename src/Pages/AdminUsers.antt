-- ===== src/Pages/AdminUsers.antt =====
-- frontend/src/pages/admin/AdminUsersPage.tsx: the list of accounts, and the three actions of an
-- administrator on one of them. A handler is cut at its `await`: the reply is an event of its own. A
-- button that is disabled or loading takes no event.
pub mod Screen
pub mod Safety
mod Tests
use punah_pustak.Common.{
  ℕ, String, Bool, true, false, not, ◌||◌, ◌==◌, Option, none, some, List, [], ◌∷◌, truthy,
  if◌then◌else◌,
}
use punah_pustak.Auth.{
  AuthState, loading, unauthenticated, password_change_required, authenticated, Reply, value, threw,
}
use punah_pustak.Js.{trim}
use punah_pustak.Ui.FormErrors.{get_error_message}
use punah_pustak.Ui.View.{View, text, button, when}

abbrev pub page_size : ℕ
page_size = 20

-- `AdminUserPublic`
pub record AdminUser : Type 0 where
  pub id : String
  pub email : String
  pub display_name : String
  pub created_at : String
  pub is_active : Bool

-- What has been sent to the server.
pub data AdminRequest : Type 0 where
  suspend_request : (user_id reason_code : String) → AdminRequest
  reinstate_request : String → AdminRequest
  reset_request : String → AdminRequest

-- `isPending` of the three mutations; `requests` is newest first.
pub record AdminUsers : Type 0 where
  pub page : ℕ
  pub suspend_target : Option AdminUser
  pub reason_code : String
  pub reset_target : Option AdminUser
  pub temporary_password : Option String
  pub action_error : Option String
  pub is_suspending : Bool
  pub is_reinstating : Bool
  pub is_resetting : Bool
  pub requests : List AdminRequest

pub data AdminUsersEvent : Type 0 where
  suspend_open : AdminUser → AdminUsersEvent
  suspend_close : AdminUsersEvent
  reason_change : String → AdminUsersEvent
  suspend_press : AdminUsersEvent
  suspend_reply : Reply (Unit {0}) → AdminUsersEvent
  reinstate_press : AdminUser → AdminUsersEvent
  reinstate_reply : Reply (Unit {0}) → AdminUsersEvent
  reset_open : AdminUser → AdminUsersEvent
  reset_close : AdminUsersEvent
  reset_press : AdminUsersEvent
  reset_reply : Reply String → AdminUsersEvent
  set_page : ℕ → AdminUsersEvent

unfoldable pub initial : AdminUsers
initial = record {
  page = 1;
  suspend_target = none;
  reason_code = "";
  reset_target = none;
  temporary_password = none;
  action_error = none;
  is_suspending = false;
  is_reinstating = false;
  is_resetting = false;
  requests = [];
}

-- Whether the modal's button is disabled: the reason is blank, or the mutation is pending.
abbrev pub cannot_suspend : AdminUsers → Bool
cannot_suspend s = not (truthy (trim s.reason_code)) || s.is_suspending

-- `handleSuspend` up to its `await`.
unfoldable pub handle_suspend : Option AdminUser → AdminUsers → AdminUsers
handle_suspend none s = s
handle_suspend (some u) s = record s {
  action_error = none;
  is_suspending = true;
  requests = suspend_request u.id s.reason_code ∷ s.requests;
}

unfoldable pub suspended : Reply (Unit {0}) → AdminUsers → AdminUsers
suspended (value _) s = record s { is_suspending = false; suspend_target = none; reason_code = "" }
suspended (threw t) s = record s {
  is_suspending = false;
  action_error = some (get_error_message t);
}

unfoldable pub handle_reinstate : AdminUser → AdminUsers → AdminUsers
handle_reinstate u s = record s {
  action_error = none;
  is_reinstating = true;
  requests = reinstate_request u.id ∷ s.requests;
}

unfoldable pub reinstated : Reply (Unit {0}) → AdminUsers → AdminUsers
reinstated (value _) s = record s { is_reinstating = false }
reinstated (threw t) s = record s {
  is_reinstating = false;
  action_error = some (get_error_message t);
}

unfoldable pub handle_reset_password : Option AdminUser → AdminUsers → AdminUsers
handle_reset_password none s = s
handle_reset_password (some u) s = record s {
  action_error = none;
  is_resetting = true;
  requests = reset_request u.id ∷ s.requests;
}

unfoldable pub password_reset : Reply String → AdminUsers → AdminUsers
password_reset (value p) s = record s { is_resetting = false; temporary_password = some p }
password_reset (threw t) s = record s {
  is_resetting = false;
  action_error = some (get_error_message t);
}

unfoldable pub close_reset_modal : AdminUsers → AdminUsers
close_reset_modal s = record s { reset_target = none; temporary_password = none }

unfoldable pub update : AdminUsers → AdminUsersEvent → AdminUsers
unfolding handle_suspend suspended handle_reinstate reinstated handle_reset_password password_reset
    close_reset_modal
update s (suspend_open u) = record s { action_error = none; suspend_target = some u }
update s suspend_close = record s { suspend_target = none }
update s (reason_change r) = record s { reason_code = r }
update s suspend_press = if cannot_suspend s then s else handle_suspend s.suspend_target s
update s (suspend_reply r) = suspended r s
update s (reinstate_press u) = if s.is_reinstating then s else handle_reinstate u s
update s (reinstate_reply r) = reinstated r s
update s (reset_open u) = record s { action_error = none; reset_target = some u }
update s reset_close = close_reset_modal s
update s reset_press = if s.is_resetting then s else handle_reset_password s.reset_target s
update s (reset_reply r) = password_reset r s
update s (set_page n) = record s { page = n }

unfoldable pub run : AdminUsers → List AdminUsersEvent → AdminUsers
run s [] = s
run s (e ∷ es) = run (update s e) es

abbrev pub current_user_id : AuthState → Option String
current_user_id (authenticated u) = some u.id
current_user_id loading = none
current_user_id unauthenticated = none
current_user_id password_change_required = none

-- `user.id === currentUserId`
abbrev pub is_self : Option String → AdminUser → Bool
is_self none u = false
is_self (some id) u = u.id == id

unfoldable pub render_actions : Option String → AdminUsers → AdminUser → View AdminUsersEvent
render_actions me s u =
    if is_self me u
    then []
    else (if u.is_active
        then button "Suspend" false (suspend_open u)
        else button "Reinstate" s.is_reinstating (reinstate_press u))
      ∷ button "Reset password" false (reset_open u)
      ∷ []

unfoldable pub render_status : Option String → AdminUser → View AdminUsersEvent
render_status me u =
    text (if u.is_active then "Active" else "Suspended") ∷ when (is_self me u) (text "you" ∷ [])
