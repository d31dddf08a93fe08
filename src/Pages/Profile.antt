-- ===== src/Pages/Profile.antt =====
-- frontend/src/pages/ProfilePage.tsx, with the session that it reads and refreshes (auth/AuthContext.tsx).
--
-- `handleSubmit` is cut at its two `await`s. The button is loading during the first only, so that a second submission
-- may start while the first one's `refreshUser` is pending: `refreshes` counts those.
pub mod Screen
pub mod Saving
mod Tests
use punah_pustak.Common.{
  ℕ, zero, suc, String, Bool, true, false, Option, none, some, List, [], ◌∷◌, Dict, if◌then◌else◌,
}
use punah_pustak.Api.Errors.{Thrown}
use punah_pustak.Auth
use punah_pustak.Auth.{
  Auth, AuthState, authenticated, unauthenticated, loading, password_change_required, Reply, value,
  threw, User, refresh_user, profile_reply,
}
use punah_pustak.Ui.FormErrors.{to_form_errors}

-- `is_updating` is `updateMutation.isPending`; `requests` are the names sent, newest first.
pub record Profile : Type 0 where
  pub display_name : String
  pub field_errors : Dict String
  pub form_error : Option String
  pub saved : Bool
  pub password_changed : Bool
  pub is_updating : Bool
  pub refreshes : ℕ
  pub requests : List String
  pub auth : Auth

pub data ProfileEvent : Type 0 where
  name_change : String → ProfileEvent
  submit : ProfileEvent
  update_reply : Reply (Unit {0}) → ProfileEvent
  -- the `getOwnProfile` of a `refreshUser`, by its place among the pending loads
  refresh_reply : ℕ → Reply User → ProfileEvent
  password_success : ProfileEvent

abbrev name_of : AuthState → String
name_of (authenticated u) = u.display_name
name_of loading = ""
name_of unauthenticated = ""
name_of password_change_required = ""

unfoldable pub mount : Auth → Profile
mount a = record {
  display_name = name_of a.state;
  field_errors = [];
  form_error = none;
  saved = false;
  password_changed = false;
  is_updating = false;
  refreshes = 0;
  requests = [];
  auth = a;
}

-- `handleSubmit` up to its first `await`; a loading button takes no click.
unfoldable pub handle_submit : Profile → Profile
handle_submit s = if s.is_updating then s else record s {
  field_errors = [];
  form_error = none;
  saved = false;
  is_updating = true;
  requests = s.display_name ∷ s.requests;
}

-- From its first `await` on: `refreshUser`, or the `catch`.
unfoldable pub updated : Reply (Unit {0}) → Profile → Profile
updated (value _) s = record s {
  is_updating = false;
  refreshes = suc s.refreshes;
  auth = punah_pustak.Auth.step s.auth refresh_user;
}
updated (threw t) s = record s {
  is_updating = false;
  field_errors = (to_form_errors t).fields;
  form_error = (to_form_errors t).form_message;
}

-- From its second `await` on, which never rejects: `refreshUser` catches every error.
unfoldable pub user_refreshed : ℕ → ℕ → Reply User → Profile → Profile
user_refreshed zero i r s = s
user_refreshed (suc n) i r s = record s {
  refreshes = n;
  saved = true;
  auth = punah_pustak.Auth.step s.auth (profile_reply i r);
}

unfoldable pub step : Profile → ProfileEvent → Profile
unfolding handle_submit updated user_refreshed
step s (name_change v) = record s { display_name = v }
step s submit = handle_submit s
step s (update_reply r) = if s.is_updating then updated r s else s
step s (refresh_reply i r) = user_refreshed s.refreshes i r s
step s password_success = record s { password_changed = true }

unfoldable pub run : Profile → List ProfileEvent → Profile
run s [] = s
run s (e ∷ es) = run (step s e) es
