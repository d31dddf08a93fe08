-- ===== src/Api/Client/Restoring.antt =====
-- frontend/src/main.tsx, which calls `restoreSession` before it renders anything: what that means for the requests of
-- the first page.
use punah_pustak.Common.{
  ℕ, zero, suc, ◌≡◌, refl, ◌∙◌, Bool, true, Option, none, some, List, [], ◌∷◌, All, arith,
  if◌then◌else◌,
}
use punah_pustak.Api.Client.{
  CallTarget, Response, awaiting_restore, awaiting_response, awaiting_refresh, settled, Job,
  fetching, restoring, restored, restore_failed, Traffic, refresh_request, refresh_answer,
  resource_request, Shared, World, RefreshReply, refreshed, refused, failed, authorization, Event,
  start, restore, set_handlers, set_token, answer, lose, settle_refresh, perform_refresh, wake,
  wake_all, deliver, deliver_at, step, run, initial,
}

-- The traffic once the refresh has ended: each call has sent its request with the new token, or without one, or all
-- of them have failed.
abbrev pub released : RefreshReply → List CallTarget → List Traffic → List Traffic
released reply [] ts = ts
released (refreshed t) (p ∷ ps) ts =
    resource_request p (authorization (some t)) ∷ released (refreshed t) ps ts
released refused (p ∷ ps) ts = resource_request p none ∷ released refused ps ts
released failed (p ∷ ps) ts = released failed ps ts

abbrev Bears : RefreshReply → Shared → Type 0
Bears (refreshed t) c = c.access_token ≡ some t
Bears refused c = c.access_token ≡ none
Bears failed c = Unit

perform_refresh-Bears :
    (reply : RefreshReply) (c : Shared)
    → Bears reply (perform_refresh reply c)
      × ((perform_refresh reply c).traffic ≡ refresh_answer ∷ c.traffic)
unfolding perform_refresh
perform_refresh-Bears (refreshed t) c = (refl, refl)
perform_refresh-Bears refused c = (refl, refl)
perform_refresh-Bears failed c = (tt, refl)

module _ {J : Type 0} where
  -- The code of `main.tsx` up to its end: the restore is under way, and nothing is rendered yet.
  unfoldable pub main : World J
  main = step initial restore

  -- Before the refresh of the restore has ended.
  abbrev pub IsBeforeEnd : Event J → Type 0
  IsBeforeEnd (settle_refresh _) = ⊥
  IsBeforeEnd _ = Unit

  -- A job that has sent nothing.
  abbrev HasSentNothing : Job J → Type 0
  HasSentNothing (fetching _ (awaiting_restore _)) = Unit
  HasSentNothing (fetching _ (awaiting_response _)) = ⊥
  HasSentNothing (fetching _ (awaiting_refresh _)) = ⊥
  HasSentNothing (fetching _ (settled _)) = ⊥
  HasSentNothing restoring = Unit
  HasSentNothing (restored _) = ⊥
  HasSentNothing restore_failed = ⊥

  deliver_to_none :
      (r : Option (Response J)) (j : Job J) (c : Shared) → HasSentNothing j → deliver r j c ≡ (j, c)
  unfolding deliver
  deliver_to_none (some r) (fetching _ (awaiting_restore _)) c h = refl
  deliver_to_none none (fetching _ (awaiting_restore _)) c h = refl
  deliver_to_none (some r) restoring c h = refl
  deliver_to_none none restoring c h = refl
  deliver_to_none r (fetching _ (awaiting_response _)) c h = elim h [ ]
  deliver_to_none r (fetching _ (awaiting_refresh _)) c h = elim h [ ]
  deliver_to_none r (fetching _ (settled _)) c h = elim h [ ]
  deliver_to_none r (restored _) c h = elim h [ ]
  deliver_to_none r restore_failed c h = elim h [ ]

  deliver_at_to_none :
      (i : ℕ) (r : Option (Response J)) (js : List (Job J)) (c : Shared)
      → All HasSentNothing js
      → deliver_at i r js c ≡ (js, c)
  unfolding deliver_at
  deliver_at_to_none i r [] c h = refl
  deliver_at_to_none zero r (j ∷ js) c h = rw (deliver_to_none r j c h.0) refl
  deliver_at_to_none (suc i) r (j ∷ js) c h = rw (deliver_at_to_none i r js c h.1) refl

  -- The targets of the calls among the jobs, newest first.
  abbrev paths : List (Job J) → List CallTarget
  paths [] = []
  paths (fetching target _ ∷ js) = target ∷ paths js
  paths (restoring ∷ js) = paths js
  paths (restored _ ∷ js) = paths js
  paths (restore_failed ∷ js) = paths js

  -- The targets that the events ask for, newest first, before those of `ps`.
  abbrev pub started : List CallTarget → List (Event J) → List CallTarget
  started ps [] = ps
  started ps (start target ∷ es) = started (target ∷ ps) es
  started ps (restore ∷ es) = started ps es
  started ps (set_handlers _ ∷ es) = started ps es
  started ps (set_token _ ∷ es) = started ps es
  started ps (answer _ _ ∷ es) = started ps es
  started ps (lose _ ∷ es) = started ps es
  started ps (settle_refresh _ ∷ es) = started ps es

  record IsRestoring (ps : List CallTarget) (w : World J) : Type 0 where
    busy : w.shared.refresh_in_flight ≡ true
    only_refresh : w.shared.traffic ≡ refresh_request ∷ []
    unsent : All HasSentNothing w.jobs
    asked : paths w.jobs ≡ ps

  run-IsRestoring :
      (ps : List CallTarget) (w : World J) (es : List (Event J))
      → All IsBeforeEnd es
      → IsRestoring ps w
      → IsRestoring (started ps es) (run w es)
  unfolding run step
  run-IsRestoring ps w [] b s = s
  run-IsRestoring ps w (start target ∷ es) b s =
      run-IsRestoring (target ∷ ps) _ es b.1 (ground (arith, s.busy))
  run-IsRestoring ps w (restore ∷ es) b s = run-IsRestoring ps _ es b.1 (ground (arith, s.busy))
  run-IsRestoring ps w (set_handlers _ ∷ es) b s =
      run-IsRestoring ps _ es b.1 (ground (arith, s.busy))
  run-IsRestoring ps w (set_token _ ∷ es) b s = run-IsRestoring ps _ es b.1 (ground (arith, s.busy))
  run-IsRestoring ps w (answer i r ∷ es) b s =
      run-IsRestoring ps _ es b.1 (rw (deliver_at_to_none i (some r) w.jobs w.shared s.unsent) s)
  run-IsRestoring ps w (lose i ∷ es) b s =
      run-IsRestoring ps _ es b.1 (rw (deliver_at_to_none i none w.jobs w.shared s.unsent) s)
  run-IsRestoring ps w (settle_refresh _ ∷ es) b s = absurd b.0

  wake_releases :
      (reply : RefreshReply) (j : Job J) (js : List (Job J)) (c : Shared) (ts : List Traffic)
      → HasSentNothing j
      → Bears reply c
      → c.traffic ≡ released reply (paths js) ts
      → Bears reply (wake reply j c).1
        × ((wake reply j c).1.traffic ≡ released reply (paths (j ∷ js)) ts)
  unfolding wake
  wake_releases (refreshed t) (fetching target (awaiting_restore _)) js c ts h b e = ground arith
  wake_releases refused (fetching target (awaiting_restore _)) js c ts h b e = ground arith
  wake_releases failed (fetching target (awaiting_restore _)) js c ts h b e = ground arith
  wake_releases reply restoring js c ts h b e = (b, e)
  wake_releases reply (fetching _ (awaiting_response _)) js c ts h b e = elim h [ ]
  wake_releases reply (fetching _ (awaiting_refresh _)) js c ts h b e = elim h [ ]
  wake_releases reply (fetching _ (settled _)) js c ts h b e = elim h [ ]
  wake_releases reply (restored _) js c ts h b e = elim h [ ]
  wake_releases reply restore_failed js c ts h b e = elim h [ ]

  wake_all_releases :
      (reply : RefreshReply) (js : List (Job J)) (c : Shared)
      → All HasSentNothing js
      → Bears reply c
      → Bears reply (wake_all reply js c).1
        × ((wake_all reply js c).1.traffic ≡ released reply (paths js) c.traffic)
  unfolding wake_all
  wake_all_releases reply [] c h b = (b, refl)
  wake_all_releases reply (j ∷ js) c h b =
      let (bears, sent) = wake_all_releases reply js c h.1 b in
      wake_releases reply j js (wake_all reply js c).1 c.traffic h.0 bears sent

  if_busy :
      {b : Bool} (v w : World J) → b ≡ true → (if b then v else w).shared.traffic ≡ v.shared.traffic
  if_busy v w e = rw e refl

  settle_releases :
      (reply : RefreshReply) (ps : List CallTarget) (w : World J)
      → IsRestoring ps w
      → (step w (settle_refresh reply)).shared.traffic
        ≡ released reply ps (refresh_answer ∷ refresh_request ∷ [])
  unfolding step
  settle_releases reply ps w s =
      let (bears, answered) = perform_refresh-Bears reply w.shared in
      let (_, sent) =
        wake_all_releases reply w.jobs (perform_refresh reply w.shared) s.unsent bears in
      if_busy _ _ s.busy ∙ cc (s.asked, s.only_refresh)

  -- Since `main` restores the session first, nothing but the refresh goes out until the refresh has ended, however
  -- many requests the first page starts and whatever else happens meanwhile; then each of these requests goes out
  -- exactly once, in their order, with the token that the refresh brought, without any if it was refused or brought an
  -- empty one, and none goes out if it failed.
  pub first_requests_wait :
      (es : List (Event J)) (reply : RefreshReply)
      → All IsBeforeEnd es
      → ((run main es).shared.traffic ≡ refresh_request ∷ [])
        × ((step (run main es) (settle_refresh reply)).shared.traffic
            ≡ released reply (started [] es) (refresh_answer ∷ refresh_request ∷ []))
  unfolding main initial step
  first_requests_wait es reply b =
      let s =
        run-IsRestoring [] main es b
          (record { busy = refl; only_refresh = refl; unsent = (tt, tt); asked = refl }) in
      (s.only_refresh, settle_releases reply (started [] es) (run main es) s)
