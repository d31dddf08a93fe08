-- ===== src/Session/Users.antt =====
-- The functions of `AuthProvider` show as logged in only a user that an answer for the profile names.
use punah_pustak.Common.{
  ℕ, ◌===◌, ◌≡◌, refl, String, Bool, true, false, Option, none, some, List, [], ◌∷◌, truthy_option,
  if◌then◌else◌,
}
use punah_pustak.Api.Client.{
  CallTarget, Document, Response, Outcome, undefined, resolved, rejected, is_ok, Notice,
}
use punah_pustak.Auth
use punah_pustak.Auth.{
  User, AuthState, loading, unauthenticated, password_change_required, authenticated, Reply, value,
  threw, Auth, Load, plain, then_home, AuthEvent, profile_reply, resume_load, take_load,
  demands_password_change,
}
use punah_pustak.Session.{hear, profile_of}
use punah_pustak.Session.Sources.{own_profile, HasOrigin}

-- What `apiFetch` makes of an answer that is ok.
abbrev pub content : {J : Type 0} → Response J → Option (Document J)
content r = if r.status === 204 then none else r.body

module _ {J : Type 0} (read_user : Option (Document J) → User)
    (A : CallTarget → Response J → Type 0) where
  -- A user that is shown as logged in is what an answer for the profile says.
  abbrev pub HasSource : AuthState → Type 0
  HasSource (authenticated u) =
      (r : Response J) × A own_profile r × (is_ok r.status ≡ true) × (u ≡ read_user (content r))
  HasSource loading = Unit
  HasSource unauthenticated = Unit
  HasSource password_change_required = Unit

  abbrev pub IsReplySourced : AuthEvent → Type 0
  IsReplySourced (profile_reply _ (value u)) = HasSource (authenticated u)
  IsReplySourced _ = Unit

  pub outcome_source :
      (read_token : Document J → String) (i : ℕ) (o : Outcome J)
      → HasOrigin A own_profile o
      → IsReplySourced (profile_reply i (profile_of read_user read_token o))
  outcome_source read_token i undefined (r, a, h) = (r, a, h.0, rw h.1 refl)
  outcome_source read_token i (resolved d) (r, a, h) = (r, a, h.0, rw (h.1, h.2) refl)
  outcome_source read_token i (rejected t) h = tt

  state_if :
      (b : Bool) (x y : Auth)
      → HasSource x.state
      → HasSource y.state
      → HasSource (if b then x else y).state
  state_if true x y h k = h
  state_if false x y h k = k

  resume_source :
      (i : ℕ) (l : Option Load) (r : Reply User) (a : Auth)
      → IsReplySourced (profile_reply i r)
      → HasSource a.state
      → HasSource (resume_load i l r a).state
  unfolding resume_load
  resume_source i none r a e h = h
  resume_source i (some plain) (value u) a e h = e
  resume_source i (some then_home) (value u) a e h = e
  resume_source i (some plain) (threw t) a e h = state_if (demands_password_change t) _ _ tt tt
  resume_source i (some then_home) (threw t) a e h = state_if (demands_password_change t) _ _ tt tt

  pub auth_source :
      (a : Auth) (e : AuthEvent)
      → IsReplySourced e
      → HasSource a.state
      → HasSource (Auth.step a e).state
  unfolding Auth.step
  auth_source a (profile_reply i r) e h = resume_source i (take_load i a.loads) r a e h
  auth_source a (AuthEvent.restored t) e h =
      state_if a.cancelled _ _ h (state_if (truthy_option t) _ _ h tt)
  auth_source a (AuthEvent.login_reply (value t)) e h = h
  auth_source a (AuthEvent.login_reply (threw t)) e h = h
  auth_source a AuthEvent.unmounted e h = h
  auth_source a (AuthEvent.logout_reply _) e h = tt
  auth_source a AuthEvent.complete_password_change e h = h
  auth_source a AuthEvent.refresh_user e h = h
  auth_source a AuthEvent.session_expired e h = tt
  auth_source a AuthEvent.password_change_demanded e h = tt

  pub hear_source : (ns : List Notice) (a : Auth) → HasSource a.state → HasSource (hear ns a).state
  unfolding hear
  hear_source [] a h = h
  hear_source (Notice.session_expired ∷ ns) a h = auth_source (hear ns a) _ tt (hear_source ns a h)
  hear_source (Notice.password_change_required ∷ ns) a h =
      auth_source (hear ns a) _ tt (hear_source ns a h)
