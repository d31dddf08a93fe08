-- ===== src/Api/Client.antt =====
-- frontend/src/api/client.ts and tokenStore.ts: the one function that every API call goes through,
-- with the access token, the refresh that all callers share, and the retry after a 401.
--
-- An `async` function is cut at its `await`s. A `Job` is one call in progress, its `Phase` the
-- `await` at which it is suspended; `Shared` holds the variables of the two modules and the traffic.
-- Between two events of the environment (`Event`) the code runs without interruption.
pub mod Flight
pub mod Budget
pub mod Settling
pub mod Restoring
pub mod Progress
mod Tests
use punah_pustak.Common.{
  ℕ, zero, suc, ◌===◌, leb, String, Bool, true, false, not, ◌&&◌, Option, none, some, List, [], ◌∷◌,
  includes, truthy, truthy_option, if◌then◌else◌,
}
use punah_pustak.Common.{◌==◌}
use punah_pustak.Api.Endpoints.{Method}
use punah_pustak.Api.Errors.{ApiErrorEnvelope, api_error, Thrown, api, raised}

-- Paths whose 401 is never answered by a refresh.
abbrev pub no_retry_paths : List String
no_retry_paths = "/api/v1/auth/login" ∷ "/api/v1/auth/register" ∷ "/api/v1/auth/refresh" ∷ []

-- The JSON of a response: the API's error envelope, or a document of the endpoint.
pub data Document (J : Type 0) : Type 0 where
  envelope : ApiErrorEnvelope → Document J
  payload : J → Document J

-- `body` is `none` where `response.json()` rejects.
pub record Response (J : Type 0) : Type 0 where
  pub status : ℕ
  pub body : Option (Document J)

-- How the promise of a call settles; `undefined` is the value for a 204.
pub data Outcome (J : Type 0) : Type 0 where
  undefined : Outcome J
  resolved : Document J → Outcome J
  rejected : Thrown → Outcome J

-- The suspension points of `performFetch`, with its argument `allowRetry` where it is still read.
pub data Phase (J : Type 0) : Type 0 where
  awaiting_restore : Bool → Phase J
  awaiting_response : Bool → Phase J
  awaiting_refresh : Response J → Phase J
  settled : Outcome J → Phase J

-- The endpoint that a call of `apiFetch` is for.
pub record CallTarget : Type 0 where
  pub method : Method
  pub path : String

abbrev pub call_to : Method → String → CallTarget
call_to method path = record { method = method; path = path }

-- A caller of `apiFetch`, or of `restoreSession` (which `AuthProvider` calls on mount).
pub data Job (J : Type 0) : Type 0 where
  fetching : CallTarget → Phase J → Job J
  restoring : Job J
  restored : Option String → Job J
  restore_failed : Job J

-- Traffic with the server; a request carries the `Authorization` token if there is one.
pub data Traffic : Type 0 where
  refresh_request : Traffic
  refresh_answer : Traffic
  resource_request : CallTarget → Option String → Traffic

pub data Notice : Type 0 where
  session_expired : Notice
  password_change_required : Notice

-- The module variables (`handlers`: whether `AuthProvider` has registered its two handlers), the
-- handlers' calls and the traffic, both newest first.
pub record Shared : Type 0 where
  pub access_token : Option String
  pub refresh_in_flight : Bool
  pub handlers : Bool
  pub notices : List Notice
  pub traffic : List Traffic

pub record World (J : Type 0) : Type 0 where
  pub shared : Shared
  pub jobs : List (Job J)

-- How the fetch of `/auth/refresh` ends: a new token, a status that is not ok, or a rejection (the
-- network failed, or the body was not JSON).
pub data RefreshReply : Type 0 where
  refreshed : String → RefreshReply
  refused : RefreshReply
  failed : RefreshReply

pub data Event (J : Type 0) : Type 0 where
  start : CallTarget → Event J
  restore : Event J
  set_handlers : Bool → Event J
  -- `setAccessToken`, which `AuthContext` calls
  set_token : Option String → Event J
  answer : ℕ → Response J → Event J
  lose : ℕ → Event J
  settle_refresh : RefreshReply → Event J

unfoldable pub notify : Notice → Shared → Shared
notify n c = if c.handlers then record c { notices = n ∷ c.notices } else c

-- The `Authorization` header is set only for a truthy token.
abbrev pub authorization : Option String → Option String
authorization t = if truthy_option t then t else none

unfoldable pub refresh_access_token : Shared → Shared
refresh_access_token c =
    if c.refresh_in_flight
    then c
    else record c { refresh_in_flight = true; traffic = refresh_request ∷ c.traffic }

-- `performRefresh` once its fetch has ended, and the `finally` of `refreshAccessToken`.
unfoldable pub perform_refresh : RefreshReply → Shared → Shared
perform_refresh (refreshed t) c = record c {
  access_token = some t;
  refresh_in_flight = false;
  traffic = refresh_answer ∷ c.traffic;
}
perform_refresh refused c = record c {
  access_token = none;
  refresh_in_flight = false;
  traffic = refresh_answer ∷ c.traffic;
}
perform_refresh failed c = record c {
  refresh_in_flight = false;
  traffic = refresh_answer ∷ c.traffic;
}

abbrev pub is_ok : ℕ → Bool
is_ok status = leb 200 status && leb status 299

abbrev pub may_refresh : ℕ → Bool → String → Bool
may_refresh status retry path = (status === 401) && (retry && not (includes no_retry_paths path))

module _ {J : Type 0} where
  -- `performFetch` from the token to the fetch.
  unfoldable pub send : CallTarget → Bool → Shared → Phase J × Shared
  send target retry c = (
    awaiting_response retry,
    record c { traffic = resource_request target (authorization c.access_token) ∷ c.traffic },
  )

  -- `performFetch` up to its first suspension.
  unfoldable pub begin_fetch : CallTarget → Bool → Shared → Phase J × Shared
  unfolding send
  begin_fetch target retry c =
      if c.refresh_in_flight then (awaiting_restore retry, c) else send target retry c

  abbrev pub failure : ℕ → Option (Document J) → Outcome J
  failure status none = rejected (raised "invalid JSON")
  failure status (some (payload _)) = rejected (raised "envelope.error is undefined")
  failure status (some (envelope e)) = rejected (api (api_error status e))

  abbrev pub requires_password_change : Option (Document J) → Bool
  requires_password_change (some (envelope e)) = e.code == "PASSWORD_CHANGE_REQUIRED"
  requires_password_change _ = false

  abbrev pub success : Option (Document J) → Outcome J
  success none = rejected (raised "invalid JSON")
  success (some d) = resolved d

  -- The end of `performFetch`, below the retry.
  unfoldable pub finish : Response J → Shared → Phase J × Shared
  unfolding notify
  finish r c =
      if r.status === 204
      then (settled undefined, c)
      else if is_ok r.status
      then (settled (success r.body), c)
      else (
        settled (failure r.status r.body),
        if requires_password_change r.body then notify password_change_required c else c,
      )

  -- `performFetch` after its fetch.
  unfoldable pub receive : CallTarget → Bool → Response J → Shared → Phase J × Shared
  unfolding refresh_access_token finish
  receive target retry r c =
      if may_refresh r.status retry target.path
      then (awaiting_refresh r, refresh_access_token c)
      else finish r c

  -- `performFetch` after `await refreshAccessToken()`.
  unfoldable pub retry_or_expire :
      CallTarget → Response J → RefreshReply → Shared → Phase J × Shared
  unfolding begin_fetch finish notify
  retry_or_expire target r (refreshed t) c =
      if truthy t then begin_fetch target false c else finish r (notify session_expired c)
  retry_or_expire target r refused c = finish r (notify session_expired c)
  retry_or_expire target r failed c = (settled (rejected (raised "Failed to fetch")), c)

  -- `performFetch` after `await refreshInFlight`, which rethrows a rejection.
  unfoldable pub proceed : CallTarget → Bool → RefreshReply → Shared → Phase J × Shared
  unfolding send
  proceed target retry failed c = (settled (rejected (raised "Failed to fetch")), c)
  proceed target retry _ c = send target retry c

  -- One job goes on when the refresh that all await has ended.
  unfoldable pub wake_phase : CallTarget → Phase J → RefreshReply → Shared → Phase J × Shared
  unfolding proceed retry_or_expire
  wake_phase target (awaiting_restore retry) reply c = proceed target retry reply c
  wake_phase target (awaiting_refresh r) reply c = retry_or_expire target r reply c
  wake_phase target (awaiting_response retry) reply c = (awaiting_response retry, c)
  wake_phase target (settled o) reply c = (settled o, c)

  abbrev pub restored_token : RefreshReply → Job J
  restored_token (refreshed t) = restored (some t)
  restored_token refused = restored none
  restored_token failed = restore_failed

  unfoldable pub wake : RefreshReply → Job J → Shared → Job J × Shared
  unfolding wake_phase
  wake reply (fetching target p) c =
      let (p', c') = wake_phase target p reply c in (fetching target p', c')
  wake reply restoring c = (restored_token reply, c)
  wake reply job c = (job, c)

  -- The oldest job first; between two kinds of waiting the order is not modelled.
  unfoldable pub wake_all : RefreshReply → List (Job J) → Shared → List (Job J) × Shared
  wake_all reply [] c = ([], c)
  wake_all reply (j ∷ js) c =
      let (js', c') = wake_all reply js c in let (j', c'') = wake reply j c' in (j' ∷ js', c'')

  -- The response (`none` where the fetch rejects) reaches a job that awaits one.
  unfoldable pub deliver : Option (Response J) → Job J → Shared → Job J × Shared
  unfolding receive
  deliver (some r) (fetching target (awaiting_response retry)) c =
      let (p, c') = receive target retry r c in (fetching target p, c')
  deliver none (fetching target (awaiting_response retry)) c =
      (fetching target (settled (rejected (raised "Failed to fetch"))), c)
  deliver _ job c = (job, c)

  unfoldable pub deliver_at :
      ℕ → Option (Response J) → List (Job J) → Shared → List (Job J) × Shared
  deliver_at i r [] c = ([], c)
  deliver_at zero r (j ∷ js) c = let (j', c') = deliver r j c in (j' ∷ js, c')
  deliver_at (suc i) r (j ∷ js) c = let (js', c') = deliver_at i r js c in (j ∷ js', c')

  unfoldable pub step : World J → Event J → World J
  unfolding begin_fetch perform_refresh refresh_access_token
  step w (start target) =
      let (p, c) = begin_fetch target true w.shared in
      record { shared = c; jobs = fetching target p ∷ w.jobs }
  step w restore = record { shared = refresh_access_token w.shared; jobs = restoring ∷ w.jobs }
  step w (set_handlers b) = record w { shared = record w.shared { handlers = b } }
  step w (set_token t) = record w { shared = record w.shared { access_token = t } }
  step w (answer i r) =
      let (js, c) = deliver_at i (some r) w.jobs w.shared in record { shared = c; jobs = js }
  step w (lose i) =
      let (js, c) = deliver_at i none w.jobs w.shared in record { shared = c; jobs = js }
  step w (settle_refresh reply) =
      let (js, c) = wake_all reply w.jobs (perform_refresh reply w.shared) in
      if w.shared.refresh_in_flight then record { shared = c; jobs = js } else w

  unfoldable pub run : World J → List (Event J) → World J
  run w [] = w
  run w (e ∷ es) = run (step w e) es

  -- The page just loaded: no token, nothing in flight.
  unfoldable pub initial : World J
  initial = record {
    shared = record {
      access_token = none;
      refresh_in_flight = false;
      handlers = false;
      notices = [];
      traffic = [];
    };
    jobs = [];
  }
