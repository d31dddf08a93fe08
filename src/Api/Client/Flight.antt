-- ===== src/Api/Client/Flight.antt =====
-- At most one refresh at a time, and nobody is left waiting for a refresh that has ended.
use punah_pustak.Common.{
  ℕ, zero, suc, ◌≡◌, refl, Bool, true, false, Option, none, some, List, [], ◌∷◌, All, arith,
  if◌then◌else◌,
}
use punah_pustak.Api.Client.{
  Response, Phase, awaiting_restore, awaiting_response, awaiting_refresh, settled, Job, fetching,
  restoring, restored, restore_failed, Traffic, refresh_request, refresh_answer, resource_request,
  Shared, World, RefreshReply, refreshed, refused, failed, Event, start, restore, set_handlers,
  set_token, answer, lose, settle_refresh, perform_refresh, wake, wake_all, deliver, deliver_at,
  step, run, initial,
}

-- Read from the newest: refreshes and their ends alternate, and the newest is a request exactly
-- while a refresh is in flight.
abbrev pub Alternates : Bool → List Traffic → Type 0
Alternates b [] = b ≡ false
Alternates b (resource_request _ _ ∷ t) = Alternates b t
Alternates b (refresh_request ∷ t) = (b ≡ true) × Alternates false t
Alternates b (refresh_answer ∷ t) = (b ≡ false) × Alternates true t

abbrev pub IsSingle : Shared → Type 0
IsSingle c = Alternates c.refresh_in_flight c.traffic

perform_refresh_sound :
    (reply : RefreshReply) (c : Shared)
    → c.refresh_in_flight ≡ true
    → IsSingle c
    → IsSingle (perform_refresh reply c) × ((perform_refresh reply c).refresh_in_flight ≡ false)
unfolding perform_refresh
perform_refresh_sound (refreshed t) c e h = ground arith
perform_refresh_sound refused c e h = ground arith
perform_refresh_sound failed c e h = ground arith

module _ {J : Type 0} where
  abbrev pub WaitsPhase : Bool → Phase J → Type 0
  WaitsPhase b (awaiting_restore _) = b ≡ true
  WaitsPhase b (awaiting_refresh _) = b ≡ true
  WaitsPhase b (awaiting_response _) = Unit
  WaitsPhase b (settled _) = Unit

  -- A job that waits for a refresh does so only while one is in flight.
  abbrev pub Waits : Bool → Job J → Type 0
  Waits b (fetching _ p) = WaitsPhase b p
  Waits b restoring = b ≡ true
  Waits b (restored _) = Unit
  Waits b restore_failed = Unit

  pub record IsSound (w : World J) : Type 0 where
    pub single : IsSingle w.shared
    pub waiting : All (Waits w.shared.refresh_in_flight) w.jobs

  Waits-true : (b : Bool) (j : Job J) → Waits b j → Waits true j
  Waits-true b (fetching _ (awaiting_restore _)) h = refl
  Waits-true b (fetching _ (awaiting_refresh _)) h = refl
  Waits-true b (fetching _ (awaiting_response _)) h = tt
  Waits-true b (fetching _ (settled _)) h = tt
  Waits-true b restoring h = refl
  Waits-true b (restored _) h = tt
  Waits-true b restore_failed h = tt

  raise_jobs : (b : Bool) (js : List (Job J)) → All (Waits b) js → All (Waits true) js
  raise_jobs b [] h = tt
  raise_jobs b (j ∷ js) h = (Waits-true b j h.0, raise_jobs b js h.1)

  wake_sound :
      (reply : RefreshReply) (j : Job J) (c : Shared)
      → c.refresh_in_flight ≡ false
      → IsSingle c
      → IsSingle (wake reply j c).1
        × ((wake reply j c).1.refresh_in_flight ≡ false)
        × Waits false (wake reply j c).0
  unfolding wake
  wake_sound refused (fetching target (awaiting_refresh r)) c e h = ground arith
  wake_sound (refreshed t) (fetching target (awaiting_refresh r)) c e h = ground arith
  wake_sound failed (fetching target (awaiting_refresh r)) c e h = ground arith
  wake_sound reply (fetching target (awaiting_restore retry)) c e h = ground arith
  wake_sound reply (fetching target p) c e h = ground arith
  wake_sound reply j c e h = ground arith

  deliver_sound :
      (r : Option (Response J)) (j : Job J) (c : Shared)
      → IsSingle c
      → Waits c.refresh_in_flight j
      → IsSingle (deliver r j c).1
        × (c.refresh_in_flight ≡ true → (deliver r j c).1.refresh_in_flight ≡ true)
        × Waits (deliver r j c).1.refresh_in_flight (deliver r j c).0
  unfolding deliver
  deliver_sound (some r) (fetching target (awaiting_response retry)) c h k = ground arith
  deliver_sound none (fetching target (awaiting_response retry)) c h k = ground arith
  deliver_sound (some r) j c h k = ground arith
  deliver_sound none j c h k = ground arith

  wake_all_sound :
      (reply : RefreshReply) (js : List (Job J)) (c : Shared)
      → c.refresh_in_flight ≡ false
      → IsSingle c
      → IsSingle (wake_all reply js c).1
        × ((wake_all reply js c).1.refresh_in_flight ≡ false)
        × All (Waits false) (wake_all reply js c).0
  unfolding wake_all
  wake_all_sound reply [] c e h = (h, e, tt)
  wake_all_sound reply (j ∷ js) c e h =
      let (single, idle, rests) = wake_all_sound reply js c e h in
      let (single', idle', rests') = wake_sound reply j (wake_all reply js c).1 idle single in
      (single', idle', (rests', rests))

  grow_jobs :
      (b b' : Bool) (js : List (Job J))
      → (b ≡ true → b' ≡ true)
      → All (Waits b) js
      → All (Waits b') js
  grow_jobs true b' js g h = rw (g refl) h
  grow_jobs false true js g h = raise_jobs false js h
  grow_jobs false false js g h = h

  deliver_at_sound :
      (i : ℕ) (r : Option (Response J)) (js : List (Job J)) (c : Shared)
      → IsSingle c
      → All (Waits c.refresh_in_flight) js
      → IsSingle (deliver_at i r js c).1
        × (c.refresh_in_flight ≡ true → (deliver_at i r js c).1.refresh_in_flight ≡ true)
        × All (Waits (deliver_at i r js c).1.refresh_in_flight) (deliver_at i r js c).0
  unfolding deliver_at
  deliver_at_sound i r [] c h k = (h, λ e. e, tt)
  deliver_at_sound zero r (j ∷ js) c h k =
      let (single, grows, waits) = deliver_sound r j c h k.0 in
      (single, grows, (waits, grow_jobs _ _ js grows k.1))
  deliver_at_sound (suc i) r (j ∷ js) c h k =
      let (single, grows, waits) = deliver_at_sound i r js c h k.1 in
      (single, grows, ((grow_jobs _ _ (j ∷ []) grows (k.0, tt)).0, waits))

  IsSound-if :
      (b : Bool) {v w : World J} → (b ≡ true → IsSound v) → IsSound w → IsSound (if b then v else w)
  IsSound-if true hv hw = hv refl
  IsSound-if false hv hw = hw

  -- Each event keeps the invariant: refresh requests and their ends alternate, and a job waits for
  -- a refresh only while one is in flight.
  pub step-IsSound : (w : World J) (e : Event J) → IsSound w → IsSound (step w e)
  unfolding step
  step-IsSound w (start target) s = record {
    single = ground arith;
    waiting =
        (ground arith, grow_jobs w.shared.refresh_in_flight _ w.jobs (ground arith) s.waiting);
  }
  step-IsSound w restore s = record {
    single = ground arith;
    waiting =
        (ground arith, grow_jobs w.shared.refresh_in_flight _ w.jobs (ground arith) s.waiting);
  }
  step-IsSound w (set_handlers b) s = record { single = s.single; waiting = s.waiting }
  step-IsSound w (set_token t) s = record { single = s.single; waiting = s.waiting }
  step-IsSound w (answer i r) s =
      let (single, _, waits) = deliver_at_sound i (some r) w.jobs w.shared s.single s.waiting in
      record { single = single; waiting = waits }
  step-IsSound w (lose i) s =
      let (single, _, waits) = deliver_at_sound i none w.jobs w.shared s.single s.waiting in
      record { single = single; waiting = waits }
  step-IsSound w (settle_refresh reply) s =
      IsSound-if w.shared.refresh_in_flight
        (λ e.
          let (single, idle) = perform_refresh_sound reply w.shared e s.single in
          let (single', idle', rests) =
            wake_all_sound reply w.jobs (perform_refresh reply w.shared) idle single in
          record { single = single'; waiting = grow_jobs false _ _ (λ f. cc) rests })
        s

  pub run-IsSound : (w : World J) (es : List (Event J)) → IsSound w → IsSound (run w es)
  unfolding run
  run-IsSound w [] s = s
  run-IsSound w (e ∷ es) s = run-IsSound (step w e) es (step-IsSound w e s)

  initial-IsSound : IsSound (initial {J = J})
  unfolding initial
  initial-IsSound = record { single = refl; waiting = tt }

  -- After any events from the loading of the page, refreshes alternate with their ends in the
  -- traffic (so that two are never under way at once), the newest is a request exactly while
  -- `refreshInFlight` is set, and no call waits for a refresh that is over.
  pub single_flight : (es : List (Event J)) → IsSound (run initial es)
  single_flight es = run-IsSound initial es initial-IsSound
