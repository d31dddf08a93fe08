-- ===== src/Auth.antt =====
-- frontend/src/auth/AuthContext.tsx: who is logged in.
--
-- The callbacks are cut at their `await`s: an event is what resumes one of them, and `loads` holds
-- the calls of `loadCurrentUser` that wait for `getOwnProfile`.
pub mod Safety
mod Tests
use punah_pustak.Common.{
  ℕ, zero, suc, ◌==◌, String, Bool, true, false, Option, none, some, List, [], ◌∷◌, truthy_option,
  if◌then◌else◌,
}
use punah_pustak.Api.Errors.{Thrown, api, raised, other}

pub data UserRole : Type 0 where
  user admin : UserRole

pub record User : Type 0 where
  pub id : String
  pub email : String
  pub display_name : String
  pub role : UserRole
  pub created_at : String

pub data AuthState : Type 0 where
  loading : AuthState
  unauthenticated : AuthState
  password_change_required : AuthState
  authenticated : User → AuthState

-- How an awaited API call ends.
pub data Reply (A : Type 0) : Type 0 where
  value : A → Reply A
  threw : Thrown → Reply A

-- What `loadCurrentUser` was awaited by: nothing more follows, or `completePasswordChange`.
pub data Load : Type 0 where
  plain : Load
  then_home : Load

-- `navigations` are the calls of `navigate`, newest first; `cancelled` is the mount effect's flag.
pub record Auth : Type 0 where
  pub state : AuthState
  pub access_token : Option String
  pub navigations : List String
  pub loads : List Load
  pub cancelled : Bool

pub data AuthEvent : Type 0 where
  restored : Option String → AuthEvent
  unmounted : AuthEvent
  profile_reply : ℕ → Reply User → AuthEvent
  login_reply : Reply String → AuthEvent
  logout_reply : Reply (Unit {0}) → AuthEvent
  complete_password_change : AuthEvent
  refresh_user : AuthEvent
  session_expired : AuthEvent
  password_change_demanded : AuthEvent

unfoldable pub initial : Auth
initial = record {
  state = loading;
  access_token = none;
  navigations = [];
  loads = [];
  cancelled = false;
}

abbrev pub demands_password_change : Thrown → Bool
demands_password_change (api e) = e.code == "PASSWORD_CHANGE_REQUIRED"
demands_password_change (raised _) = false
demands_password_change other = false

-- `loadCurrentUser` up to its `await`.
abbrev pub load_current_user : Load → Auth → Auth
load_current_user l a = record a { loads = l ∷ a.loads }

-- `loadCurrentUser` from its `await` on.
unfoldable pub profile_loaded : Reply User → Auth → Auth
profile_loaded (value u) a = record a { state = authenticated u }
profile_loaded (threw t) a =
    if demands_password_change t
    then record a { state = password_change_required }
    else record a { access_token = none; state = unauthenticated }

-- What awaits a load once it is done.
abbrev pub after_load : Load → Auth → Auth
after_load plain a = a
after_load then_home a = record a { navigations = "/" ∷ a.navigations }

abbrev pub take_load : ℕ → List Load → Option Load
take_load i [] = none
take_load zero (l ∷ ls) = some l
take_load (suc i) (l ∷ ls) = take_load i ls

abbrev pub drop_load : ℕ → List Load → List Load
drop_load i [] = []
drop_load zero (l ∷ ls) = ls
drop_load (suc i) (l ∷ ls) = l ∷ drop_load i ls

unfoldable pub resume_load : ℕ → Option Load → Reply User → Auth → Auth
unfolding profile_loaded
resume_load i none r a = a
resume_load i (some l) r a =
    after_load l (profile_loaded r (record a { loads = drop_load i a.loads }))

-- The mount effect from its `await` on.
unfoldable pub session_restored : Option String → Auth → Auth
session_restored t a =
    if a.cancelled
    then a
    else if truthy_option t
    then load_current_user plain a
    else record a { state = unauthenticated }

unfoldable pub log_in : Reply String → Auth → Auth
log_in (value t) a = load_current_user plain (record a { access_token = some t })
log_in (threw _) a = a

-- The `finally` of `logout` runs whatever the server answered.
unfoldable pub log_out : Reply (Unit {0}) → Auth → Auth
log_out _ a = record a {
  access_token = none;
  state = unauthenticated;
  navigations = "/login" ∷ a.navigations;
}

unfoldable pub step : Auth → AuthEvent → Auth
unfolding resume_load session_restored log_in log_out
step a (restored t) = session_restored t a
step a unmounted = record a { cancelled = true }
step a (profile_reply i r) = resume_load i (take_load i a.loads) r a
step a (login_reply r) = log_in r a
step a (logout_reply r) = log_out r a
step a complete_password_change = load_current_user then_home a
step a refresh_user = load_current_user plain a
step a session_expired = record a {
  state = unauthenticated;
  navigations = "/login" ∷ a.navigations;
}
step a password_change_demanded = record a {
  state = password_change_required;
  navigations = "/change-password" ∷ a.navigations;
}

unfoldable pub run : Auth → List AuthEvent → Auth
run a [] = a
run a (e ∷ es) = run (step a e) es
