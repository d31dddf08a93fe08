-- ===== src/Session/Login.antt =====
-- A login, from the form to the page that the visitor wanted, and one that is refused.
use punah_pustak.Api.Endpoints.{get, post}
use punah_pustak.Common.{
  ℕ, suc, ltb, ◌≡◌, refl, String, Bool, true, false, Option, some, List, [], ◌∷◌, arith, length,
  ◌==◌, or_else,
}
use punah_pustak.Api.Errors.{ApiErrorEnvelope}
use punah_pustak.Api.Client
use punah_pustak.Api.Client.{
  call_to, Document, envelope, Response, Job, Traffic, resource_request, authorization, deliver,
  deliver_at, refresh_request, begin_fetch,
}
use punah_pustak.Auth
use punah_pustak.Auth.{User, authenticated, Auth}
use punah_pustak.App.{login, place, replaced_by, app}
use punah_pustak.Session.{Owner, System, answered, resumed, login_submitted, go_auth, step, run}

ltb-suc : (n : ℕ) → ltb n (suc n) ≡ true
ltb-suc n = ground arith

suc_not_below : (n : ℕ) → ltb (suc n) n ≡ false
suc_not_below n = ground arith

self_not_below : (n : ℕ) → ltb n n ≡ false
self_not_below n = ground arith

module _ {J : Type 0} where
  -- A session in which no refresh is under way.
  abbrev pub idle :
      Option String → (handlers : Bool) → List Traffic → List (Job J) → Auth → List Owner → System J
  idle token live sent js a os = record {
    world = record {
      shared = record {
        access_token = token;
        refresh_in_flight = false;
        handlers = live;
        notices = [];
        traffic = sent;
      };
      jobs = js;
    };
    auth = a;
    owners = os;
  }

  abbrev pub ok : Document J → Response J
  ok d = record { status = 200; body = some d }

module _ {J : Type 0} (read_user : Option (Document J) → User)
    (read_token : Document J → String) where
  -- Whoever was logged in before and whatever else is under way, if no refresh is, when the server accepts the
  -- credentials and then answers the profile, its token is stored, the request for the profile carries it, the user is
  -- the one of the profile, and the login page leads to the page that the visitor came from.
  pub login_leads_back :
      (token : Option String) (live : Bool) (sent : List Traffic) (js : List (Job J)) (a : Auth)
      (os : List Owner)
      → (pair user : Document J) (from : Option String)
      → let s' = run read_user read_token (idle token live sent js a os) (
          login_submitted
          ∷ answered 0 (ok pair)
          ∷ resumed 0
          ∷ answered 0 (ok user)
          ∷ resumed 0
          ∷ []) in
        (s'.auth.state ≡ authenticated (read_user (some user)))
        × (s'.world.shared.access_token ≡ some (read_token pair))
        × (s'.world.shared.traffic
            ≡ resource_request
                (call_to get "/api/v1/users/me")
                (authorization (some (read_token pair)))
              ∷ resource_request (call_to post "/api/v1/auth/login") (authorization token)
              ∷ sent)
        × (app s'.auth.state (record { path = "/login"; from = from }) login
            ≡ replaced_by (place (or_else from "/")))
  unfolding run step Client.step Auth.step deliver_at deliver begin_fetch app go_auth
  login_leads_back token live sent js a os pair user from =
      rw (ltb-suc (length a.loads), go_auth, suc_not_below (length a.loads))
        (refl, refl, refl, refl)

  -- A login that the server refuses leaves the session as it was, also where its answer is a 401 (that does not ask for a new password): no refresh and no
  -- further request is sent, the token stays, and so does whoever is logged in.
  pub refused_login_changes_nothing :
      (token : Option String) (live : Bool) (sent : List Traffic) (js : List (Job J)) (a : Auth)
      (os : List Owner)
      → (e : ApiErrorEnvelope) → (e.code == "PASSWORD_CHANGE_REQUIRED") ≡ false
      → let s' = run read_user read_token (idle token live sent js a os) (
          login_submitted
          ∷ answered 0 (record { status = 401; body = some (envelope e) })
          ∷ resumed 0
          ∷ []) in
        (s'.auth.state ≡ a.state)
        × (s'.world.shared.access_token ≡ token)
        × (s'.world.shared.traffic
            ≡ resource_request (call_to post "/api/v1/auth/login") (authorization token) ∷ sent)
  unfolding run step Client.step Auth.step deliver_at deliver begin_fetch go_auth
  refused_login_changes_nothing token live sent js a os e h =
      rw (h, go_auth, self_not_below (length a.loads)) (refl, refl, refl)
