-- ===== src/Api/Client/Budget.antt =====
-- Bounded traffic: a call sends its request at most twice, and asks for at most one refresh.
use punah_pustak.Common.{
  ℕ, zero, suc, ◌+◌, ◌*◌, ◌≤◌, ◌≡◌, Bool, true, false, Option, none, some, List, [], ◌∷◌, arith,
  length, if◌then◌else◌,
}
use punah_pustak.Api.Client.{
  Response, awaiting_restore, awaiting_response, awaiting_refresh, settled, Job, fetching,
  restoring, restored, restore_failed, Traffic, refresh_request, refresh_answer, resource_request,
  Shared, World, RefreshReply, refreshed, refused, failed, Event, start, restore, set_handlers,
  set_token, answer, lose, settle_refresh, perform_refresh, wake, wake_all, deliver, deliver_at,
  step, run, initial,
}

abbrev pub resource_requests : List Traffic → ℕ
resource_requests [] = 0
resource_requests (resource_request _ _ ∷ t) = suc (resource_requests t)
resource_requests (refresh_request ∷ t) = resource_requests t
resource_requests (refresh_answer ∷ t) = resource_requests t

abbrev pub refresh_requests : List Traffic → ℕ
refresh_requests [] = 0
refresh_requests (resource_request _ _ ∷ t) = refresh_requests t
refresh_requests (refresh_request ∷ t) = suc (refresh_requests t)
refresh_requests (refresh_answer ∷ t) = refresh_requests t

perform_refresh_sends_nothing :
    (reply : RefreshReply) (c : Shared)
    → (resource_requests (perform_refresh reply c).traffic ≡ resource_requests c.traffic)
      × (refresh_requests (perform_refresh reply c).traffic ≡ refresh_requests c.traffic)
unfolding perform_refresh
perform_refresh_sends_nothing (refreshed t) c = omega arith
perform_refresh_sends_nothing refused c = omega arith
perform_refresh_sends_nothing failed c = omega arith

module _ {J : Type 0} where
  -- The requests and refreshes that a job may still cause.
  abbrev requests_left : Job J → ℕ
  requests_left (fetching _ (awaiting_restore true)) = 2
  requests_left (fetching _ (awaiting_restore false)) = 1
  requests_left (fetching _ (awaiting_response true)) = 1
  requests_left (fetching _ (awaiting_response false)) = 0
  requests_left (fetching _ (awaiting_refresh _)) = 1
  requests_left (fetching _ (settled _)) = 0
  requests_left restoring = 0
  requests_left (restored _) = 0
  requests_left restore_failed = 0

  abbrev refreshes_left : Job J → ℕ
  refreshes_left (fetching _ (awaiting_restore true)) = 1
  refreshes_left (fetching _ (awaiting_response true)) = 1
  refreshes_left (fetching _ _) = 0
  refreshes_left restoring = 0
  refreshes_left (restored _) = 0
  refreshes_left restore_failed = 0

  abbrev total : (Job J → ℕ) → List (Job J) → ℕ
  total f [] = 0
  total f (j ∷ js) = f j + total f js

  abbrev is_fetch : Job J → ℕ
  is_fetch (fetching _ _) = 1
  is_fetch restoring = 0
  is_fetch (restored _) = 0
  is_fetch restore_failed = 0

  -- The calls of `apiFetch` among the jobs.
  abbrev pub fetches : List (Job J) → ℕ
  fetches js = total is_fetch js

  -- What one job's code adds to the traffic, it takes from what the job has left.
  record Pays (c c' : Shared) (j j' : Job J) : Type 0 where
    requests :
        resource_requests c'.traffic + requests_left j'
        ≤ resource_requests c.traffic + requests_left j
    refreshes :
        refresh_requests c'.traffic + refreshes_left j'
        ≤ refresh_requests c.traffic + refreshes_left j
    same_kind : is_fetch j' ≡ is_fetch j

  wake-Pays :
      (reply : RefreshReply) (j : Job J) (c : Shared)
      → Pays c (wake reply j c).1 j (wake reply j c).0
  unfolding wake
  wake-Pays refused (fetching target (awaiting_refresh r)) c = ground arith
  wake-Pays (refreshed t) (fetching target (awaiting_refresh r)) c = ground arith
  wake-Pays failed (fetching target (awaiting_refresh r)) c = ground arith
  wake-Pays reply (fetching target (awaiting_restore true)) c = ground arith
  wake-Pays reply (fetching target (awaiting_restore false)) c = ground arith
  wake-Pays reply (fetching target p) c = ground arith
  wake-Pays reply j c = ground arith

  deliver-Pays :
      (r : Option (Response J)) (j : Job J) (c : Shared)
      → Pays c (deliver r j c).1 j (deliver r j c).0
  unfolding deliver
  deliver-Pays (some r) (fetching target (awaiting_response true)) c = ground arith
  deliver-Pays (some r) (fetching target (awaiting_response false)) c = ground arith
  deliver-Pays none (fetching target (awaiting_response true)) c = ground arith
  deliver-Pays none (fetching target (awaiting_response false)) c = ground arith
  deliver-Pays (some r) j c = ground arith
  deliver-Pays none j c = ground arith

  record PaysAll (c c' : Shared) (js js' : List (Job J)) : Type 0 where
    requests :
        resource_requests c'.traffic + total requests_left js'
        ≤ resource_requests c.traffic + total requests_left js
    refreshes :
        refresh_requests c'.traffic + total refreshes_left js'
        ≤ refresh_requests c.traffic + total refreshes_left js
    same_kind : fetches js' ≡ fetches js
    same_length : length js' ≡ length js

  wake_all_pays :
      (reply : RefreshReply) (js : List (Job J)) (c : Shared)
      → PaysAll c (wake_all reply js c).1 js (wake_all reply js c).0
  unfolding wake_all
  wake_all_pays reply [] c = omega arith
  wake_all_pays reply (j ∷ js) c =
      omega (arith, wake-Pays reply j (wake_all reply js c).1, wake_all_pays reply js c)

  deliver_at_pays :
      (i : ℕ) (r : Option (Response J)) (js : List (Job J)) (c : Shared)
      → PaysAll c (deliver_at i r js c).1 js (deliver_at i r js c).0
  unfolding deliver_at
  deliver_at_pays i r [] c = omega arith
  deliver_at_pays zero r (j ∷ js) c = omega (arith, deliver-Pays r j c)
  deliver_at_pays (suc i) r (j ∷ js) c = omega (arith, deliver_at_pays i r js c)

  -- What is sent and what may still be sent stay within two requests for each call of `apiFetch`,
  -- and one refresh for each job.
  record IsBounded (w : World J) : Type 0 where
    requests : resource_requests w.shared.traffic + total requests_left w.jobs ≤ 2 * fetches w.jobs
    refreshes : refresh_requests w.shared.traffic + total refreshes_left w.jobs ≤ length w.jobs

  IsBounded-if :
      (b : Bool) {v w : World J} → IsBounded v → IsBounded w → IsBounded (if b then v else w)
  IsBounded-if true hv hw = hv
  IsBounded-if false hv hw = hw

  step-IsBounded : (w : World J) (e : Event J) → IsBounded w → IsBounded (step w e)
  unfolding step
  step-IsBounded w (start target) b = ground arith
  step-IsBounded w restore b = ground arith
  step-IsBounded w (set_handlers h) b = omega arith
  step-IsBounded w (set_token t) b = omega arith
  step-IsBounded w (answer i r) b = omega (arith, deliver_at_pays i (some r) w.jobs w.shared)
  step-IsBounded w (lose i) b = omega (arith, deliver_at_pays i none w.jobs w.shared)
  step-IsBounded w (settle_refresh reply) b =
      IsBounded-if w.shared.refresh_in_flight
        (omega (
          arith,
          perform_refresh_sends_nothing reply w.shared,
          wake_all_pays reply w.jobs (perform_refresh reply w.shared),
        ))
        b

  run-IsBounded : (w : World J) (es : List (Event J)) → IsBounded w → IsBounded (run w es)
  unfolding run
  run-IsBounded w [] b = b
  run-IsBounded w (e ∷ es) b = run-IsBounded (step w e) es (step-IsBounded w e b)

  initial-IsBounded : IsBounded (initial {J = J})
  unfolding initial
  initial-IsBounded = omega arith

  -- After any events from the loading of the page, the requests sent are at most twice the
  -- calls of `apiFetch`, and the refreshes at most the calls of `apiFetch` and `restoreSession`.
  pub bounded_traffic :
      (es : List (Event J))
      → (resource_requests (run initial es).shared.traffic ≤ 2 * fetches (run initial es).jobs)
        × (refresh_requests (run initial es).shared.traffic ≤ length (run initial es).jobs)
  bounded_traffic es = omega (arith, run-IsBounded initial es initial-IsBounded)
