-- ===== src/Session.antt =====
-- How frontend/src/auth/AuthContext.tsx and frontend/src/api/client.ts run together: `Auth` makes its calls through
-- `Api.Client`, shares the access token with it, and is called by it when the session expires or a password has to be
-- changed.
--
-- The calls in progress stand in `world.jobs`; `owners` says, for each of them, what awaits it. A handler runs where
-- `apiFetch` calls it. What awaits a call goes on at some later event (`resumed`), in any order.
pub mod Expiry
pub mod Sources
pub mod Users
pub mod Steps
pub mod Origin
pub mod Login
pub mod Logout
mod Tests
use punah_pustak.Api.Endpoints.{get, post}
use punah_pustak.Common.{
  ℕ, zero, suc, ltb, String, Bool, true, false, Option, none, some, List, [], ◌∷◌, length,
  get_elem?, if◌then◌else◌,
}
use punah_pustak.Api.Errors.{Thrown, raised}
use punah_pustak.Api.Client
use punah_pustak.Api.Client.{
  CallTarget, call_to, Document, Response, Outcome, undefined, resolved, rejected, Job, fetching,
  settled, restoring, restored, restore_failed, awaiting_restore, awaiting_response,
  awaiting_refresh, Notice, World, RefreshReply, Event,
}
use punah_pustak.Api.Client.Restoring.{main}
use punah_pustak.Auth
use punah_pustak.Auth.{User, Reply, value, threw, Load, Auth, AuthEvent}

-- What awaits a call: a page or nothing, or a function of `AuthProvider`.
pub data Owner : Type 0 where
  elsewhere : Owner
  mount_effect : Owner
  loads_user : Load → Owner
  logs_in : Owner
  logs_out : Owner
  gone_on : Owner

pub record System (J : Type 0) : Type 0 where
  pub world : World J
  pub auth : Auth
  pub owners : List Owner

pub data SystemEvent (J : Type 0) : Type 0 where
  answered : ℕ → Response J → SystemEvent J
  lost : ℕ → SystemEvent J
  refresh_ended : RefreshReply → SystemEvent J
  resumed : ℕ → SystemEvent J
  mounted : SystemEvent J
  unmounted : SystemEvent J
  login_submitted : SystemEvent J
  logout_clicked : SystemEvent J
  change_completed : SystemEvent J
  user_refreshed : SystemEvent J
  page_called : CallTarget → SystemEvent J

abbrev pub notice_event : Notice → AuthEvent
notice_event Notice.session_expired = AuthEvent.session_expired
notice_event Notice.password_change_required = AuthEvent.password_change_demanded

-- The handlers' calls, newest first.
unfoldable pub hear : List Notice → Auth → Auth
hear [] a = a
hear (n ∷ ns) a = Auth.step (hear ns a) (notice_event n)

abbrev pub go_on : ℕ → List Owner → List Owner
go_on i [] = []
go_on zero (o ∷ os) = gone_on ∷ os
go_on (suc i) (o ∷ os) = o ∷ go_on i os

-- The place of a call of `loadCurrentUser` among those in progress.
abbrev pub load_index : ℕ → List Owner → ℕ
load_index i [] = 0
load_index zero (o ∷ os) = 0
load_index (suc i) (loads_user _ ∷ os) = suc (load_index i os)
load_index (suc i) (_ ∷ os) = load_index i os

abbrev pub newest_load : List Load → List Owner → List Owner
newest_load [] os = os
newest_load (l ∷ _) os = loads_user l ∷ os

module _ {J : Type 0} where
  -- `apiFetch` is called, and `o` awaits it.
  unfoldable pub call : Owner → CallTarget → System J → System J
  call o target s = record s {
    world = Client.step s.world (Event.start target);
    owners = o ∷ s.owners;
  }

  -- The client goes on, and calls the handlers.
  unfoldable pub go_client : Event J → System J → System J
  unfolding hear
  go_client e s =
      let w = Client.step s.world e in
      record s {
        world = record w { shared = record w.shared { notices = [] } };
        auth = hear w.shared.notices s.auth;
      }

  -- A `loadCurrentUser` that has begun asks for the profile.
  unfoldable pub ask_profile : List Load → System J → System J
  unfolding call
  ask_profile before s =
      if ltb (length before) (length s.auth.loads)
      then record s {
        world = Client.step s.world (Event.start (call_to get "/api/v1/users/me"));
        owners = newest_load s.auth.loads s.owners;
      }
      else s

  -- `AuthProvider` has the state `a`, and its token is the one of the token store.
  unfoldable pub put_auth : Auth → System J → System J
  put_auth a s = record s { world = Client.step s.world (Event.set_token a.access_token); auth = a }

  -- `AuthProvider` goes on.
  unfoldable pub go_auth : AuthEvent → System J → System J
  unfolding ask_profile put_auth
  go_auth e s =
      ask_profile s.auth.loads
        (put_auth (Auth.step (record s.auth { access_token = s.world.shared.access_token }) e) s)

  -- The function that awaited call `i` goes on by the event `e`.
  unfoldable pub resume : ℕ → Option AuthEvent → System J → System J
  unfolding go_auth
  resume i none s = s
  resume i (some e) s = go_auth e (record s { owners = go_on i s.owners })

  -- The JSON of a response is read as the type that the caller gives it.
  module _ (read_user : Option (Document J) → User) (read_token : Document J → String) where
    abbrev pub profile_of : Outcome J → Reply User
    profile_of undefined = value (read_user none)
    profile_of (resolved d) = value (read_user (some d))
    profile_of (rejected t) = threw t

    abbrev pub login_of : Outcome J → Reply String
    login_of undefined = threw (raised "pair is undefined")
    login_of (resolved d) = value (read_token d)
    login_of (rejected t) = threw t

    abbrev pub logout_of : Outcome J → Reply (Unit {0})
    logout_of undefined = value tt
    logout_of (resolved d) = value tt
    logout_of (rejected t) = threw t

    -- What awaits a call that has settled.
    abbrev pub continuation : ℕ → Owner → Job J → Option AuthEvent
    continuation i mount_effect (restored t) = some (AuthEvent.restored t)
    continuation i (loads_user _) (fetching _ (settled o)) =
        some (AuthEvent.profile_reply i (profile_of o))
    continuation i logs_in (fetching _ (settled o)) = some (AuthEvent.login_reply (login_of o))
    continuation i logs_out (fetching _ (settled o)) = some (AuthEvent.logout_reply (logout_of o))
    continuation i _ _ = none

    abbrev pub job_event : List Owner → ℕ → Option Owner → Option (Job J) → Option AuthEvent
    job_event os i none j = none
    job_event os i (some o) none = none
    job_event os i (some o) (some j) = continuation (load_index i os) o j

    unfoldable pub step : System J → SystemEvent J → System J
    unfolding go_client go_auth call resume
    step s (answered i r) = go_client (Event.answer i r) s
    step s (lost i) = go_client (Event.lose i) s
    step s (refresh_ended reply) = go_client (Event.settle_refresh reply) s
    step s (resumed i) =
        resume i (job_event s.owners i (get_elem? s.owners i) (get_elem? s.world.jobs i)) s
    step s mounted = record s {
      world = Client.step (Client.step s.world Event.restore) (Event.set_handlers true);
      owners = mount_effect ∷ s.owners;
    }
    step s unmounted =
        let s' = go_auth AuthEvent.unmounted s in
        record s' { world = Client.step s'.world (Event.set_handlers false) }
    step s login_submitted = call logs_in (call_to post "/api/v1/auth/login") s
    step s logout_clicked = call logs_out (call_to post "/api/v1/auth/logout") s
    step s change_completed = go_auth AuthEvent.complete_password_change s
    step s user_refreshed = go_auth AuthEvent.refresh_user s
    step s (page_called target) = call elsewhere target s

    unfoldable pub run : System J → List (SystemEvent J) → System J
    run s [] = s
    run s (e ∷ es) = run (step s e) es

  -- `main.tsx` has run.
  unfoldable pub loaded : System J
  loaded = record { world = main; auth = Auth.initial; owners = elsewhere ∷ [] }
