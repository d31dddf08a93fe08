-- ===== src/Session/Logout.antt =====
-- A logout lasts, whatever the client does afterwards.
use punah_pustak.Common.{
  ℕ, zero, suc, ltb, ◌≡◌, refl, sym, subst, String, Bool, true, false, Option, none, some, List, [],
  ◌∷◌, All, arith, length, get_elem?, if◌then◌else◌,
}
use punah_pustak.Api.Client
use punah_pustak.Api.Client.{
  CallTarget, Document, Outcome, undefined, resolved, rejected, Job, fetching, settled,
  awaiting_restore, awaiting_response, awaiting_refresh, restoring, restored, restore_failed,
  Notice, Event,
}
use punah_pustak.Auth
use punah_pustak.Auth.{User, Auth, AuthEvent, Load}
use punah_pustak.Auth.Safety.{is_authenticated}
use punah_pustak.Session.{
  Owner, elsewhere, mount_effect, loads_user, logs_in, logs_out, gone_on, System, SystemEvent,
  answered, lost, refresh_ended, resumed, mounted, unmounted, login_submitted, logout_clicked,
  change_completed, user_refreshed, page_called, hear, go_on, call, go_client, put_auth,
  ask_profile, go_auth, resume, continuation, job_event, logout_of, load_index, step, run,
}

-- What awaits a call does not ask for the profile.
abbrev pub IsQuiet : Owner → Type 0
IsQuiet mount_effect = ⊥
IsQuiet (loads_user _) = ⊥
IsQuiet logs_in = ⊥
IsQuiet elsewhere = Unit
IsQuiet logs_out = Unit
IsQuiet gone_on = Unit

-- Nobody logs in, restores a session, completes a password change or refreshes the user.
abbrev pub IsPassive : {J : Type 0} → SystemEvent J → Type 0
IsPassive mounted = ⊥
IsPassive login_submitted = ⊥
IsPassive change_completed = ⊥
IsPassive user_refreshed = ⊥
IsPassive _ = Unit

-- The session is over, and no `loadCurrentUser` is under way.
record IsOver (a : Auth) : Type 0 where
  no_loads : a.loads ≡ []
  out : is_authenticated a.state ≡ false

hear-IsOver : (ns : List Notice) (a : Auth) → IsOver a → IsOver (hear ns a)
unfolding hear Auth.step
hear-IsOver [] a h = h
hear-IsOver (Notice.session_expired ∷ ns) a h = record {
  no_loads = (hear-IsOver ns a h).no_loads;
  out = refl;
}
hear-IsOver (Notice.password_change_required ∷ ns) a h = record {
  no_loads = (hear-IsOver ns a h).no_loads;
  out = refl;
}

go_on_quiet : (i : ℕ) (os : List Owner) → All IsQuiet os → All IsQuiet (go_on i os)
go_on_quiet i [] h = tt
go_on_quiet zero (o ∷ os) h = (tt, h.1)
go_on_quiet (suc i) (o ∷ os) h = (h.0, go_on_quiet i os h.1)

owner_quiet :
    (i : ℕ) (os : List Owner) (o : Owner) → All IsQuiet os → get_elem? os i ≡ some o → IsQuiet o
owner_quiet i [] o h e = absurd (cc)
owner_quiet zero (p ∷ os) o h e = let same : p ≡ o = cc in subst IsQuiet same h.0
owner_quiet (suc i) (p ∷ os) o h e = owner_quiet i os o h.1 e

no_load_begun : (before after : List Load) → after ≡ [] → ltb (length before) (length after) ≡ false
no_load_begun before [] h = ground arith
no_load_begun before (l ∷ ls) h = cc

module _ {J : Type 0} where
  record IsLoggedOut (s : System J) : Type 0 where
    over : IsOver s.auth
    quiet : All IsQuiet s.owners

  IsLoggedOut-else :
      (b : Bool) (x y : System J) → b ≡ false → IsLoggedOut y → IsLoggedOut (if b then x else y)
  IsLoggedOut-else true x y e h = cc
  IsLoggedOut-else false x y e h = h

  -- An event that begins no load, and after which the session is over.
  go_auth-IsLoggedOut :
      (e : AuthEvent) (s : System J)
      → All IsQuiet s.owners
      → IsOver (Auth.step (record s.auth { access_token = s.world.shared.access_token }) e)
      → IsLoggedOut (go_auth e s)
  unfolding go_auth ask_profile put_auth
  go_auth-IsLoggedOut e s q h =
      IsLoggedOut-else _ _ _ (no_load_begun s.auth.loads _ h.no_loads)
        (record { over = record { no_loads = h.no_loads; out = h.out }; quiet = q })

  go_client-IsLoggedOut : (e : Event J) (s : System J) → IsLoggedOut s → IsLoggedOut (go_client e s)
  unfolding go_client
  go_client-IsLoggedOut e s h = record {
    over = hear-IsOver (Client.step s.world e).shared.notices s.auth h.over;
    quiet = h.quiet;
  }

  call-IsLoggedOut :
      (o : Owner) (target : CallTarget) (s : System J)
      → IsQuiet o
      → IsLoggedOut s
      → IsLoggedOut (call o target s)
  unfolding call
  call-IsLoggedOut o target s q h = record { over = h.over; quiet = (q, h.quiet) }

module _ {J : Type 0} (read_user : Option (Document J) → User)
    (read_token : Document J → String) where
  abbrev IsQuietNext : Option AuthEvent → Type 0
  IsQuietNext none = Unit
  IsQuietNext (some (AuthEvent.logout_reply _)) = Unit
  IsQuietNext (some _) = ⊥

  next_quiet :
      (n : ℕ) (o : Owner) (j : Job J)
      → IsQuiet o
      → IsQuietNext (continuation read_user read_token n o j)
  next_quiet n elsewhere j q = tt
  next_quiet n gone_on j q = tt
  next_quiet n logs_out (fetching _ (settled _)) q = tt
  next_quiet n logs_out (fetching _ (awaiting_restore _)) q = tt
  next_quiet n logs_out (fetching _ (awaiting_response _)) q = tt
  next_quiet n logs_out (fetching _ (awaiting_refresh _)) q = tt
  next_quiet n logs_out restoring q = tt
  next_quiet n logs_out (restored _) q = tt
  next_quiet n logs_out restore_failed q = tt
  next_quiet n mount_effect j q = absurd q
  next_quiet n (loads_user _) j q = absurd q
  next_quiet n logs_in j q = absurd q

  event_quiet :
      (os : List Owner) (i : ℕ) (o : Option Owner) (j : Option (Job J))
      → ((p : Owner) → o ≡ some p → IsQuiet p)
      → IsQuietNext (job_event read_user read_token os i o j)
  event_quiet os i none j q = tt
  event_quiet os i (some o) none q = tt
  event_quiet os i (some o) (some j) q = next_quiet (load_index i os) o j (q o refl)

  resume-IsLoggedOut :
      (i : ℕ) (e : Option AuthEvent) (s : System J)
      → IsQuietNext e
      → IsLoggedOut s
      → IsLoggedOut (resume i e s)
  unfolding resume Auth.step
  resume-IsLoggedOut i none s n h = h
  resume-IsLoggedOut i (some (AuthEvent.logout_reply r)) s n h =
      go_auth-IsLoggedOut (AuthEvent.logout_reply r) (record s { owners = go_on i s.owners })
        (go_on_quiet i s.owners h.quiet) (record { no_loads = h.over.no_loads; out = refl })
  resume-IsLoggedOut i (some (AuthEvent.restored _)) s n h = absurd n
  resume-IsLoggedOut i (some AuthEvent.unmounted) s n h = absurd n
  resume-IsLoggedOut i (some (AuthEvent.profile_reply _ _)) s n h = absurd n
  resume-IsLoggedOut i (some (AuthEvent.login_reply _)) s n h = absurd n
  resume-IsLoggedOut i (some AuthEvent.complete_password_change) s n h = absurd n
  resume-IsLoggedOut i (some AuthEvent.refresh_user) s n h = absurd n
  resume-IsLoggedOut i (some AuthEvent.session_expired) s n h = absurd n
  resume-IsLoggedOut i (some AuthEvent.password_change_demanded) s n h = absurd n

  step-IsLoggedOut :
      (s : System J) (e : SystemEvent J)
      → IsPassive e
      → IsLoggedOut s
      → IsLoggedOut (step read_user read_token s e)
  unfolding step Auth.step
  step-IsLoggedOut s (answered i r) p h = go_client-IsLoggedOut (Event.answer i r) s h
  step-IsLoggedOut s (lost i) p h = go_client-IsLoggedOut (Event.lose i) s h
  step-IsLoggedOut s (refresh_ended reply) p h =
      go_client-IsLoggedOut (Event.settle_refresh reply) s h
  step-IsLoggedOut s (resumed i) p h =
      resume-IsLoggedOut i _ s
        (event_quiet s.owners i (get_elem? s.owners i) (get_elem? s.world.jobs i)
          (λ (o : Owner) (e : get_elem? s.owners i ≡ some o). owner_quiet i s.owners o h.quiet e))
        h
  step-IsLoggedOut s mounted p h = absurd p
  step-IsLoggedOut s unmounted p h =
      let h' =
        go_auth-IsLoggedOut AuthEvent.unmounted s h.quiet
          (record { no_loads = h.over.no_loads; out = h.over.out }) in
      record { over = h'.over; quiet = h'.quiet }
  step-IsLoggedOut s login_submitted p h = absurd p
  step-IsLoggedOut s logout_clicked p h = call-IsLoggedOut logs_out _ s tt h
  step-IsLoggedOut s change_completed p h = absurd p
  step-IsLoggedOut s user_refreshed p h = absurd p
  step-IsLoggedOut s (page_called target) p h = call-IsLoggedOut elsewhere target s tt h

  run-IsLoggedOut :
      (s : System J) (es : List (SystemEvent J))
      → All IsPassive es
      → IsLoggedOut s
      → IsLoggedOut (run read_user read_token s es)
  unfolding run
  run-IsLoggedOut s [] p h = h
  run-IsLoggedOut s (e ∷ es) p h =
      run-IsLoggedOut (step read_user read_token s e) es p.1 (step-IsLoggedOut s e p.0 h)

  logout_event :
      (os : List Owner) (i : ℕ) (p : Option Owner) (j : Option (Job J)) (target : CallTarget)
      (o : Outcome J)
      → p ≡ some logs_out
      → j ≡ some (fetching target (settled o))
      → job_event read_user read_token os i p j
        ≡ some (AuthEvent.logout_reply (logout_of read_user read_token o))
  logout_event os i p j target o e f = rw (e, f) refl

  logout-IsLoggedOut :
      (s : System J) (i : ℕ) (target : CallTarget) (o : Outcome J)
      → s.auth.loads ≡ []
      → All IsQuiet s.owners
      → get_elem? s.owners i ≡ some logs_out
      → get_elem? s.world.jobs i ≡ some (fetching target (settled o))
      → IsLoggedOut (step read_user read_token s (resumed i))
  unfolding step resume Auth.step
  logout-IsLoggedOut s i target o n q owner job =
      subst (λ e. IsLoggedOut (resume i e s)) (sym (logout_event s.owners i _ _ target o owner job))
        (go_auth-IsLoggedOut (AuthEvent.logout_reply (logout_of read_user read_token o))
          (record s { owners = go_on i s.owners }) (go_on_quiet i s.owners q)
          (record { no_loads = n; out = refl }))

  -- When the call of a logout has ended in whatever way and the logout goes on, with no login, restore
  -- (not even one that failed) or `loadCurrentUser` under way, nobody is logged in, and so it stays whatever calls are made, answered, retried or
  -- given up afterwards, and whatever tokens refreshes bring, until somebody logs in, a provider mounts, or a
  -- password change or a saved profile asks for the user.
  pub logout_lasts :
      (s : System J) (i : ℕ) (target : CallTarget) (o : Outcome J) (es : List (SystemEvent J))
      → s.auth.loads ≡ []
      → All IsQuiet s.owners
      → get_elem? s.owners i ≡ some logs_out
      → get_elem? s.world.jobs i ≡ some (fetching target (settled o))
      → All IsPassive es
      → is_authenticated
          (run read_user read_token (step read_user read_token s (resumed i)) es).auth.state
        ≡ false
  logout_lasts s i target o es n q owner job p =
      (run-IsLoggedOut (step read_user read_token s (resumed i)) es p
        (logout-IsLoggedOut s i target o n q owner job)).over.out
