-- ===== src/Api/Client/Tests.antt =====
-- Runs of the API client on concrete events.
use punah_pustak.Api.Endpoints.{get}
use punah_pustak.Common.{
  ◌+◌, ◌*◌, ◌≤◌, ◌≡◌, refl, String, true, none, some, List, [], ◌∷◌, length, All, ◌⊎◌,
}
use punah_pustak.Api.Client.{
  call_to, World, Event, start, restore, set_handlers, answer, settle_refresh, refreshed, step, run,
  initial, resource_request, refresh_request, refresh_answer, deliver, deliver_at, wake, wake_all,
}
use punah_pustak.Api.Client.Flight.{IsSound, single_flight}
use punah_pustak.Api.Client.Budget.{resource_requests, refresh_requests, fetches, bounded_traffic}
use punah_pustak.Api.Client.Settling.{authorized, waiting, settle_refreshed}
use punah_pustak.Api.Client.Restoring.{main, released, first_requests_wait}
use punah_pustak.Api.Client.Progress.{IsSettled, IsDue, calls_settle}

-- What a run computes with.
simulate : Unit {0}
unfolding run initial step deliver deliver_at wake wake_all
simulate = tt

-- Two pages ask, the server answers 401 to both; then the refresh ends.
abbrev two_401s : List (Event String)
two_401s =
    set_handlers true
    ∷ start (call_to get "/api/v1/users/me")
    ∷ start (call_to get "/api/v1/listings")
    ∷ answer 0 (record { status = 401; body = none })
    ∷ answer 1 (record { status = 401; body = none })
    ∷ []

abbrev both_wait : World String
both_wait = run initial two_401s

one_refresh :
    both_wait.shared.traffic
    ≡ refresh_request
      ∷ resource_request (call_to get "/api/v1/listings") none
      ∷ resource_request (call_to get "/api/v1/users/me") none
      ∷ []
unfolding simulate
one_refresh = refl

both_retry :
    (step both_wait (settle_refresh (refreshed "t"))).shared.traffic
    ≡ resource_request (call_to get "/api/v1/listings") (some "t")
      ∷ resource_request (call_to get "/api/v1/users/me") (some "t")
      ∷ refresh_answer
      ∷ both_wait.shared.traffic
unfolding simulate
both_retry = refl

single_flight_example : IsSound both_wait
single_flight_example = single_flight two_401s

bounded_traffic_example :
    (resource_requests both_wait.shared.traffic ≤ 2 * fetches both_wait.jobs)
    × (refresh_requests both_wait.shared.traffic ≤ length both_wait.jobs)
bounded_traffic_example = bounded_traffic two_401s

settle_refreshed_example :
    let w' = step both_wait (settle_refresh (refreshed "t")) in
    (w'.shared.access_token ≡ some "t")
    × (authorized "t" w'.shared.traffic
        ≡ waiting both_wait.jobs + authorized "t" both_wait.shared.traffic)
    × (w'.shared.notices ≡ both_wait.shared.notices)
unfolding simulate
settle_refreshed_example = settle_refreshed both_wait "t" refl refl

-- The listing's page asks for the listing, and `AuthProvider` restores the session once more.
abbrev first_page : List (Event String)
first_page = restore ∷ set_handlers true ∷ start (call_to get "/api/v1/listings/7") ∷ []

first_requests_wait_example :
    ((run main first_page).shared.traffic ≡ refresh_request ∷ [])
    × ((step (run main first_page) (settle_refresh (refreshed "t"))).shared.traffic
        ≡ released
            (refreshed "t")
            (call_to get "/api/v1/listings/7" ∷ [])
            (refresh_answer ∷ refresh_request ∷ []))
first_requests_wait_example = first_requests_wait first_page (refreshed "t") (tt, (tt, (tt, tt)))

-- The two pages' calls are retried, and the server accepts them.
abbrev recovers : List (Event String)
recovers =
    settle_refresh (refreshed "t")
    ∷ answer 0 (record { status = 204; body = none })
    ∷ answer 1 (record { status = 204; body = none })
    ∷ []

calls_settle_example :
    (length recovers ≤ 6 * length both_wait.jobs + 1)
    × (All IsSettled (run both_wait recovers).jobs
        ⊎ ((e : Event String) × IsDue (run both_wait recovers) e))
unfolding simulate
calls_settle_example = calls_settle two_401s recovers (refl, (tt, (tt, tt)))
