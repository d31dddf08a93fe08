-- ===== src/Session/Steps.antt =====
-- Every step of the session and the client together keeps what `Sources` and `Users` say.
use punah_pustak.Common.{
  ℕ, zero, suc, ltb, ◌≡◌, refl, subst, String, Bool, true, false, Option, none, some, List, [], ◌∷◌,
  All, arith, length, get_elem?, if◌then◌else◌,
}
use punah_pustak.Api.Client
use punah_pustak.Api.Client.{
  CallTarget, Document, Response, Outcome, undefined, resolved, rejected, Job, fetching, settled,
  restoring, restored, restore_failed, World, Shared, RefreshReply, Event, is_ok, Phase,
  begin_fetch, Notice, awaiting_restore, awaiting_response, awaiting_refresh, perform_refresh,
}
use punah_pustak.Auth
use punah_pustak.Auth.{
  User, AuthState, loading, unauthenticated, password_change_required, authenticated, Reply, value,
  threw, Auth, Load, plain, then_home, AuthEvent, profile_reply, resume_load, take_load,
  demands_password_change,
}
use punah_pustak.Session.{
  Owner, elsewhere, mount_effect, loads_user, logs_in, logs_out, gone_on, System, SystemEvent,
  answered, lost, refresh_ended, resumed, mounted, unmounted, login_submitted, logout_clicked,
  change_completed, user_refreshed, page_called, go_on, step, profile_of, newest_load, call,
  go_client, go_auth, put_auth, ask_profile, resume, job_event, load_index,
}
use punah_pustak.Session.Users.{HasSource, IsReplySourced, outcome_source, auth_source, hear_source}
use punah_pustak.Session.Sources.{
  own_profile, answer_of, job_target, Asks, IsSourced, IsPhaseSourced, phase_if, AreSound,
  HasOrigin, wake_all_sound, deliver_at_sound,
}

module _ {J : Type 0} (read_user : Option (Document J) → User) (read_token : Document J → String)
    (A : CallTarget → Response J → Type 0) where
  pub record IsSound (s : System J) : Type 0 where
    pub calls : AreSound A s.owners s.world.jobs
    pub user : HasSource read_user A s.auth.state

  IsSound-if :
      (b : Bool) (x y : System J)
      → (b ≡ true → IsSound x)
      → IsSound y
      → IsSound (if b then x else y)
  IsSound-if true x y h k = h refl
  IsSound-if false x y h k = k

  begun_phase :
      (target : CallTarget) (c : Shared) → IsPhaseSourced A target (begin_fetch target true c).0
  unfolding begin_fetch
  begun_phase target c = phase_if A target c.refresh_in_flight _ _ (λ _. tt) (λ _. tt)

  -- A call that anyone but `loadCurrentUser` makes.
  call-IsSound :
      (o : Owner) (target : CallTarget) (s : System J)
      → ((j : Job J) → Asks A o j)
      → IsSound s
      → IsSound (call o target s)
  unfolding call Client.step
  call-IsSound o target s asks h = record {
    calls = ((asks _, begun_phase target s.world.shared), h.calls);
    user = h.user;
  }

  newest_sound :
      (before ls : List Load) (os : List Owner) (j : Job J) (js : List (Job J))
      → ltb (length before) (length ls) ≡ true
      → (job_target j ≡ some own_profile) × IsSourced A j
      → AreSound A os js
      → AreSound A (newest_load ls os) (j ∷ js)
  newest_sound before [] os j js lt hj h = absurd (ground arith)
  newest_sound before (l ∷ ls) os j js lt hj h = (hj, h)

  ask-IsSound : (before : List Load) (s : System J) → IsSound s → IsSound (ask_profile before s)
  unfolding ask_profile Client.step
  ask-IsSound before s h =
      IsSound-if (ltb (length before) (length s.auth.loads)) _ _
        (λ lt. record {
          calls =
              newest_sound before s.auth.loads s.owners _ _ lt
                (refl, begun_phase own_profile s.world.shared) h.calls;
          user = h.user;
        })
        h

  put_auth-IsSound :
      (a : Auth) (s : System J) → HasSource read_user A a.state → IsSound s → IsSound (put_auth a s)
  unfolding put_auth Client.step
  put_auth-IsSound a s u h = record { calls = h.calls; user = u }

  go_auth-IsSound :
      (e : AuthEvent) (s : System J)
      → IsReplySourced read_user A e
      → IsSound s
      → IsSound (go_auth e s)
  unfolding go_auth
  go_auth-IsSound e s r h =
      let a = Auth.step (record s.auth { access_token = s.world.shared.access_token }) e in
      ask-IsSound s.auth.loads (put_auth a s) (
        put_auth-IsSound a s
          (auth_source read_user A (record s.auth { access_token = s.world.shared.access_token }) e
            r h.user)
          h)

  go_client-IsSound :
      (e : Event J) (s : System J)
      → IsSound s
      → AreSound A s.owners (Client.step s.world e).jobs
      → IsSound (go_client e s)
  unfolding go_client
  go_client-IsSound e s h js = record {
    calls = js;
    user = hear_source read_user A (Client.step s.world e).shared.notices s.auth h.user;
  }

  jobs_if :
      (b : Bool) (os : List Owner) (v w : World J)
      → AreSound A os v.jobs
      → AreSound A os w.jobs
      → AreSound A os (if b then v else w).jobs
  jobs_if true os v w h k = h
  jobs_if false os v w h k = k

  settle_jobs :
      (reply : RefreshReply) (os : List Owner) (w : World J)
      → AreSound A os w.jobs
      → AreSound A os (Client.step w (Event.settle_refresh reply)).jobs
  unfolding Client.step
  settle_jobs reply os w h =
      jobs_if w.shared.refresh_in_flight os _ _
        (wake_all_sound A reply os w.jobs (perform_refresh reply w.shared) h) h

  go_on_sound :
      (i : ℕ) (os : List Owner) (js : List (Job J)) → AreSound A os js → AreSound A (go_on i os) js
  go_on_sound i [] js h = h
  go_on_sound i (o ∷ os) [] h = elim h [ ]
  go_on_sound zero (o ∷ os) (j ∷ js) h = ((tt, h.0.1), h.1)
  go_on_sound (suc i) (o ∷ os) (j ∷ js) h = (h.0, go_on_sound i os js h.1)

  abbrev IsNextSourced : Option AuthEvent → Type 0
  IsNextSourced none = Unit
  IsNextSourced (some e) = IsReplySourced read_user A e

  abbrev IsPairSound : Option Owner → Option (Job J) → Type 0
  IsPairSound (some o) (some j) = Asks A o j × IsSourced A j
  IsPairSound _ _ = Unit

  pair_sound :
      (i : ℕ) (os : List Owner) (js : List (Job J))
      → AreSound A os js
      → IsPairSound (get_elem? os i) (get_elem? js i)
  pair_sound i [] [] h = tt
  pair_sound i [] (j ∷ js) h = elim h [ ]
  pair_sound i (o ∷ os) [] h = elim h [ ]
  pair_sound zero (o ∷ os) (j ∷ js) h = h.0
  pair_sound (suc i) (o ∷ os) (j ∷ js) h = pair_sound i os js h.1

  profile_sound :
      (n : ℕ) (target : CallTarget) (o : Outcome J)
      → ◌≡◌ {A = Option CallTarget} (some target) (some own_profile)
      → HasOrigin A target o
      → IsReplySourced read_user A (profile_reply n (profile_of read_user read_token o))
  profile_sound n target o e h =
      let same : target ≡ own_profile = cc in
      outcome_source read_user A read_token n o (subst (λ p. HasOrigin A p o) same h)

  job_sound :
      (os : List Owner) (i : ℕ) (o : Option Owner) (j : Option (Job J))
      → IsPairSound o j
      → IsNextSourced (job_event read_user read_token os i o j)
  job_sound os i none j h = tt
  job_sound os i (some o) none h = tt
  job_sound os i (some (loads_user l)) (some (fetching target (settled o))) h =
      profile_sound (load_index i os) target o h.0 h.1
  job_sound os i (some (loads_user l)) (some (fetching target (awaiting_restore _))) h = tt
  job_sound os i (some (loads_user l)) (some (fetching target (awaiting_response _))) h = tt
  job_sound os i (some (loads_user l)) (some (fetching target (awaiting_refresh _))) h = tt
  job_sound os i (some (loads_user l)) (some restoring) h = tt
  job_sound os i (some (loads_user l)) (some (restored _)) h = tt
  job_sound os i (some (loads_user l)) (some restore_failed) h = tt
  job_sound os i (some logs_in) (some (fetching _ (settled _))) h = tt
  job_sound os i (some logs_in) (some (fetching _ (awaiting_restore _))) h = tt
  job_sound os i (some logs_in) (some (fetching _ (awaiting_response _))) h = tt
  job_sound os i (some logs_in) (some (fetching _ (awaiting_refresh _))) h = tt
  job_sound os i (some logs_in) (some restoring) h = tt
  job_sound os i (some logs_in) (some (restored _)) h = tt
  job_sound os i (some logs_in) (some restore_failed) h = tt
  job_sound os i (some logs_out) (some (fetching _ (settled _))) h = tt
  job_sound os i (some logs_out) (some (fetching _ (awaiting_restore _))) h = tt
  job_sound os i (some logs_out) (some (fetching _ (awaiting_response _))) h = tt
  job_sound os i (some logs_out) (some (fetching _ (awaiting_refresh _))) h = tt
  job_sound os i (some logs_out) (some restoring) h = tt
  job_sound os i (some logs_out) (some (restored _)) h = tt
  job_sound os i (some logs_out) (some restore_failed) h = tt
  job_sound os i (some mount_effect) (some (fetching _ _)) h = tt
  job_sound os i (some mount_effect) (some restoring) h = tt
  job_sound os i (some mount_effect) (some (restored _)) h = tt
  job_sound os i (some mount_effect) (some restore_failed) h = tt
  job_sound os i (some elsewhere) (some _) h = tt
  job_sound os i (some gone_on) (some _) h = tt

  resume-IsSound :
      (i : ℕ) (e : Option AuthEvent) (s : System J)
      → IsNextSourced e
      → IsSound s
      → IsSound (resume i e s)
  unfolding resume
  resume-IsSound i none s n h = h
  resume-IsSound i (some e) s n h =
      go_auth-IsSound e (record s { owners = go_on i s.owners }) n
        (record { calls = go_on_sound i s.owners s.world.jobs h.calls; user = h.user })

  pub step-IsSound :
      (s : System J) (e : SystemEvent J)
      → All (λ x. A x.0 x.1) (answer_of s e)
      → IsSound s
      → IsSound (step read_user read_token s e)
  unfolding step Client.step
  step-IsSound s (answered i r) a h =
      go_client-IsSound (Event.answer i r) s h
        (deliver_at_sound A i (some r) s.owners s.world.jobs s.world.shared h.calls a)
  step-IsSound s (lost i) a h =
      go_client-IsSound (Event.lose i) s h
        (deliver_at_sound A i none s.owners s.world.jobs s.world.shared h.calls tt)
  step-IsSound s (refresh_ended reply) a h =
      go_client-IsSound (Event.settle_refresh reply) s h
        (settle_jobs reply s.owners s.world h.calls)
  step-IsSound s (resumed i) a h =
      resume-IsSound i _ s
        (job_sound s.owners i (get_elem? s.owners i) (get_elem? s.world.jobs i)
          (pair_sound i s.owners s.world.jobs h.calls))
        h
  step-IsSound s mounted a h = record { calls = ((tt, tt), h.calls); user = h.user }
  step-IsSound s unmounted a h =
      let h' = go_auth-IsSound AuthEvent.unmounted s tt h in
      record { calls = h'.calls; user = h'.user }
  step-IsSound s login_submitted a h = call-IsSound logs_in _ s (λ _. tt) h
  step-IsSound s logout_clicked a h = call-IsSound logs_out _ s (λ _. tt) h
  step-IsSound s change_completed a h = go_auth-IsSound AuthEvent.complete_password_change s tt h
  step-IsSound s user_refreshed a h = go_auth-IsSound AuthEvent.refresh_user s tt h
  step-IsSound s (page_called target) a h = call-IsSound elsewhere target s (λ _. tt) h
