-- ===== src/Api/Client/Progress.antt =====
-- Every call settles, as long as the server answers: nothing waits for ever for another call or for a refresh.
use punah_pustak.Common.{
  ℕ, zero, suc, ◌+◌, ◌*◌, ◌≤◌, ◌<◌, ◌≡◌, refl, Bool, true, false, Option, none, some, List, [], ◌∷◌,
  All, arith, length, get_elem?, Bool-cases, subst, inl, inr, ◌⊎◌, if◌then◌else◌,
}
use punah_pustak.Api.Client.{
  Response, awaiting_restore, awaiting_response, awaiting_refresh, settled, Job, fetching,
  restoring, restored, restore_failed, Shared, World, RefreshReply, refreshed, refused, failed,
  Event, start, restore, set_handlers, set_token, answer, lose, settle_refresh, perform_refresh,
  wake, wake_all, deliver, deliver_at, step, run, initial,
}
use punah_pustak.Api.Client.Flight.{Waits, IsSound, run-IsSound, single_flight}

abbrev flight : Bool → ℕ
flight true = 1
flight false = 0

perform_refresh_ends :
    (reply : RefreshReply) (c : Shared) → (perform_refresh reply c).refresh_in_flight ≡ false
unfolding perform_refresh
perform_refresh_ends (refreshed t) c = refl
perform_refresh_ends refused c = refl
perform_refresh_ends failed c = refl

flight_ends : (b b' : Bool) (m n : ℕ) → b' ≡ true → b ≡ false → m ≤ n → m + flight b < n + flight b'
flight_ends false true m n h k le = omega arith
flight_ends true b' m n h k le = cc
flight_ends false false m n h k le = cc

flight-le : (b : Bool) → flight b ≤ 1
flight-le true = omega arith
flight-le false = omega arith

module _ {J : Type 0} where
  -- The events that may still come to a job; an answer may start a refresh, which is one more.
  abbrev rank : Job J → ℕ
  rank (fetching _ (awaiting_restore true)) = 6
  rank (fetching _ (awaiting_restore false)) = 2
  rank (fetching _ (awaiting_response true)) = 5
  rank (fetching _ (awaiting_response false)) = 1
  rank (fetching _ (awaiting_refresh _)) = 3
  rank (fetching _ (settled _)) = 0
  rank restoring = 1
  rank (restored _) = 0
  rank restore_failed = 0

  abbrev ranks : List (Job J) → ℕ
  ranks [] = 0
  ranks (j ∷ js) = rank j + ranks js

  abbrev measure : World J → ℕ
  measure w = ranks w.jobs + flight w.shared.refresh_in_flight

  abbrev pub IsSettled : Job J → Type 0
  IsSettled (fetching _ (settled _)) = Unit
  IsSettled (fetching _ (awaiting_restore _)) = ⊥
  IsSettled (fetching _ (awaiting_response _)) = ⊥
  IsSettled (fetching _ (awaiting_refresh _)) = ⊥
  IsSettled restoring = ⊥
  IsSettled (restored _) = Unit
  IsSettled restore_failed = Unit

  abbrev AwaitsAnswer : Option (Job J) → Type 0
  AwaitsAnswer (some (fetching _ (awaiting_response _))) = Unit
  AwaitsAnswer _ = ⊥

  -- The network has something to say: a response or a failure comes to a call that has sent its request, or the
  -- refresh in flight ends.
  abbrev pub IsDue : World J → Event J → Type 0
  IsDue w (answer i r) = AwaitsAnswer (get_elem? w.jobs i)
  IsDue w (lose i) = AwaitsAnswer (get_elem? w.jobs i)
  IsDue w (settle_refresh _) = w.shared.refresh_in_flight ≡ true
  IsDue w _ = ⊥

  abbrev pub AreDue : World J → List (Event J) → Type 0
  AreDue w [] = Unit
  AreDue w (e ∷ es) = IsDue w e × AreDue (step w e) es

  deliver_falls :
      (r : Option (Response J)) (j : Job J) (c : Shared)
      → AwaitsAnswer (some j)
      → rank (deliver r j c).0 + flight (deliver r j c).1.refresh_in_flight
        < rank j + flight c.refresh_in_flight
  unfolding deliver
  deliver_falls (some r) (fetching target (awaiting_response true)) c h = ground arith
  deliver_falls (some r) (fetching target (awaiting_response false)) c h = ground arith
  deliver_falls none (fetching target (awaiting_response true)) c h = ground arith
  deliver_falls none (fetching target (awaiting_response false)) c h = ground arith
  deliver_falls r (fetching target (awaiting_restore _)) c h = elim h [ ]
  deliver_falls r (fetching target (awaiting_refresh _)) c h = elim h [ ]
  deliver_falls r (fetching target (settled _)) c h = elim h [ ]
  deliver_falls r restoring c h = elim h [ ]
  deliver_falls r (restored _) c h = elim h [ ]
  deliver_falls r restore_failed c h = elim h [ ]

  deliver_at_falls :
      (i : ℕ) (r : Option (Response J)) (js : List (Job J)) (c : Shared)
      → AwaitsAnswer (get_elem? js i)
      → ranks (deliver_at i r js c).0 + flight (deliver_at i r js c).1.refresh_in_flight
        < ranks js + flight c.refresh_in_flight
  unfolding deliver_at
  deliver_at_falls i r [] c h = absurd h
  deliver_at_falls zero r (j ∷ js) c h = omega (arith, deliver_falls r j c h)
  deliver_at_falls (suc i) r (j ∷ js) c h = omega (arith, deliver_at_falls i r js c h)

  wake_falls :
      (reply : RefreshReply) (j : Job J) (c : Shared)
      → c.refresh_in_flight ≡ false
      → ((wake reply j c).1.refresh_in_flight ≡ false) × (rank (wake reply j c).0 ≤ rank j)
  unfolding wake
  wake_falls refused (fetching target (awaiting_refresh r)) c e = ground arith
  wake_falls (refreshed t) (fetching target (awaiting_refresh r)) c e = ground arith
  wake_falls failed (fetching target (awaiting_refresh r)) c e = ground arith
  wake_falls reply (fetching target (awaiting_restore true)) c e = ground arith
  wake_falls reply (fetching target (awaiting_restore false)) c e = ground arith
  wake_falls reply (fetching target (awaiting_response _)) c e = (e, omega arith)
  wake_falls reply (fetching target (settled _)) c e = (e, omega arith)
  wake_falls reply restoring c e = ground arith
  wake_falls reply (restored _) c e = (e, omega arith)
  wake_falls reply restore_failed c e = (e, omega arith)

  wake_all_falls :
      (reply : RefreshReply) (js : List (Job J)) (c : Shared)
      → c.refresh_in_flight ≡ false
      → ((wake_all reply js c).1.refresh_in_flight ≡ false)
        × (ranks (wake_all reply js c).0 ≤ ranks js)
  unfolding wake_all
  wake_all_falls reply [] c e = (e, omega arith)
  wake_all_falls reply (j ∷ js) c e =
      let (idle, le) = wake_all_falls reply js c e in
      let (idle', le') = wake_falls reply j (wake_all reply js c).1 idle in (idle', omega arith)

  measure_if :
      (b : Bool) (v w : World J) (n : ℕ)
      → b ≡ true
      → measure v < n
      → measure (if b then v else w) < n
  measure_if true v w n e h = h
  measure_if false v w n e h = cc

  step_falls : (w : World J) (e : Event J) → IsDue w e → measure (step w e) < measure w
  unfolding step
  step_falls w (answer i r) d = deliver_at_falls i (some r) w.jobs w.shared d
  step_falls w (lose i) d = deliver_at_falls i none w.jobs w.shared d
  step_falls w (settle_refresh reply) d =
      let (idle, le) =
        wake_all_falls reply w.jobs (perform_refresh reply w.shared)
          (perform_refresh_ends reply w.shared) in
      measure_if w.shared.refresh_in_flight _ _ _ d
        (flight_ends _ w.shared.refresh_in_flight _ _ d idle le)
  step_falls w (start _) d = elim d [ ]
  step_falls w restore d = elim d [ ]
  step_falls w (set_handlers _) d = elim d [ ]
  step_falls w (set_token _) d = elim d [ ]

  run_falls :
      (w : World J) (es : List (Event J)) → AreDue w es → length es + measure (run w es) ≤ measure w
  unfolding run
  run_falls w [] d = omega arith
  run_falls w (e ∷ es) d = omega (arith, step_falls w e d.0, run_falls (step w e) es d.1)

  rank-le : (j : Job J) → rank j ≤ 6
  rank-le (fetching _ (awaiting_restore true)) = omega arith
  rank-le (fetching _ (awaiting_restore false)) = omega arith
  rank-le (fetching _ (awaiting_response true)) = omega arith
  rank-le (fetching _ (awaiting_response false)) = omega arith
  rank-le (fetching _ (awaiting_refresh _)) = omega arith
  rank-le (fetching _ (settled _)) = omega arith
  rank-le restoring = omega arith
  rank-le (restored _) = omega arith
  rank-le restore_failed = omega arith

  ranks-le : (js : List (Job J)) → ranks js ≤ 6 * length js
  ranks-le [] = omega arith
  ranks-le (j ∷ js) = omega (arith, rank-le j, ranks-le js)

  -- Where no refresh is in flight, a job has settled or awaits an answer.
  job_progress : (j : Job J) → Waits false j → IsSettled j ⊎ AwaitsAnswer (some j)
  job_progress (fetching _ (awaiting_restore _)) h = cc
  job_progress (fetching _ (awaiting_response _)) h = inr tt
  job_progress (fetching _ (awaiting_refresh _)) h = cc
  job_progress (fetching _ (settled _)) h = inl tt
  job_progress restoring h = cc
  job_progress (restored _) h = inl tt
  job_progress restore_failed h = inl tt

  jobs_progress :
      (js : List (Job J))
      → All (Waits false) js
      → All IsSettled js ⊎ ((i : ℕ) × AwaitsAnswer (get_elem? js i))
  jobs_progress [] h = inl tt
  jobs_progress (j ∷ js) h = elim (job_progress j h.0) [
    | inr here ↦ inr (0, here)
    | inl done ↦ elim (jobs_progress js h.1) [
      | inr (i, there) ↦ inr (suc i, there)
      | inl rest ↦ inl (done, rest)
    ]
  ]

  world_progress : (w : World J) → IsSound w → All IsSettled w.jobs ⊎ ((e : Event J) × IsDue w e)
  world_progress w s = elim (Bool-cases w.shared.refresh_in_flight) [
    | inl busy ↦ inr (settle_refresh refused, busy)
    | inr idle ↦ elim (jobs_progress w.jobs (subst (λ b. All (Waits b) w.jobs) idle s.waiting)) [
      | inl done ↦ inl done
      | inr (i, awaits) ↦ inr (lose i, awaits)
    ]
  ]

  -- Whatever has happened since the page has loaded: if from then on only the network speaks, that is responses and
  -- failures come to calls that have sent their requests and refreshes in flight end, then it does so at most six
  -- times for each call and once more; and at every moment every call has settled, or the network still has something
  -- to say. So no call waits for ever for another one, for a refresh, or in a cycle of retries.
  pub calls_settle :
      (es ns : List (Event J))
      → AreDue (run initial es) ns
      → (length ns ≤ 6 * length (run initial es).jobs + 1)
        × (All IsSettled (run (run initial es) ns).jobs
            ⊎ ((e : Event J) × IsDue (run (run initial es) ns) e))
  calls_settle es ns d = (
    omega (
      arith,
      run_falls (run initial es) ns d,
      ranks-le (run initial es).jobs,
      flight-le (run initial es).shared.refresh_in_flight,
    ),
    world_progress (run (run initial es) ns) (run-IsSound (run initial es) ns (single_flight es)),
  )
