-- ===== src/Session/Expiry.antt =====
-- A session that the server ends, from the answer to a call down to what the visitor sees.
use punah_pustak.Common.{
  ℕ, suc, zero, ◌≡◌, ◌≢◌, refl, ◌⊎◌, inl, inr, String, Bool, true, false, Option, none, some, List,
  [], ◌∷◌, arith, eq_iff, get_elem?,
}
use punah_pustak.Api.Errors.{ApiErrorEnvelope}
use punah_pustak.Api.Client
use punah_pustak.Api.Client.{
  CallTarget, Document, envelope, Response, Job, fetching, awaiting_response, Notice, World, Event,
  refused, deliver, deliver_at, Shared,
}
use punah_pustak.Api.Client.Settling.{unauthorized, expiries, settle_refused}
use punah_pustak.Auth
use punah_pustak.Auth.{
  User, AuthState, loading, unauthenticated, password_change_required, authenticated, Auth,
}
use punah_pustak.App.{
  Route, home, login, register, listings, listing_detail, change_password, new_listing,
  edit_listing, my_listings, profile, admin_users, admin_listings, any, open_route, protection,
  Router, Place, page, protected_route, app, settle, visit,
}
use punah_pustak.Session.{System, answered, refresh_ended, hear, step}

-- Nobody is logged in any more, and it is known what the visitor has to do about it.
abbrev pub HasEnded : AuthState → Type 0
HasEnded s = (s ≡ unauthenticated) ⊎ (s ≡ password_change_required)

hear_ends : (n : Notice) (ns : List Notice) (a : Auth) → HasEnded (hear (n ∷ ns) a).state
unfolding hear Auth.step
hear_ends Notice.session_expired ns a = inl refl
hear_ends Notice.password_change_required ns a = inr refl

expiries_end : (ns : List Notice) (a : Auth) → expiries ns ≢ 0 → HasEnded (hear ns a).state
expiries_end [] a h = absurd (h refl)
expiries_end (n ∷ ns) a h = hear_ends n ns a

module _ (router : Router) where
  -- Where a guarded page is opened, the visitor ends at the login page or at that for a new password.
  abbrev pub IsShutOut : AuthState → Type 0
  IsShutOut s =
      (at : Place)
      → protection (router.route at.path) ≢ open_route
      → (visit router s 1 at ≡ some (page login))
        ⊎ (visit router s 1 at ≡ some (page change_password))

  guard_leads :
      (b : Bool) (s : AuthState) (at : String) (r : Route)
      → HasEnded s
      → (settle router s 1 (protected_route b s at r) ≡ some (page login))
        ⊎ (settle router s 1 (protected_route b s at r) ≡ some (page change_password))
  unfolding settle app
  guard_leads b s at r (inl e) = inl (rw e (rw (router.at_login, settle) refl))
  guard_leads b s at r (inr e) = inr (rw e (rw (router.at_change_password, settle) refl))

  route_leads :
      (s : AuthState) (at : Place) (r : Route)
      → HasEnded s
      → protection r ≢ open_route
      → (settle router s 1 (app s at r) ≡ some (page login))
        ⊎ (settle router s 1 (app s at r) ≡ some (page change_password))
  unfolding app
  route_leads s at new_listing e h = guard_leads false s at.path new_listing e
  route_leads s at (edit_listing id) e h = guard_leads false s at.path (edit_listing id) e
  route_leads s at my_listings e h = guard_leads false s at.path my_listings e
  route_leads s at profile e h = guard_leads false s at.path profile e
  route_leads s at admin_users e h = guard_leads true s at.path admin_users e
  route_leads s at admin_listings e h = guard_leads true s at.path admin_listings e
  route_leads s at home e h = absurd (h refl)
  route_leads s at login e h = absurd (h refl)
  route_leads s at register e h = absurd (h refl)
  route_leads s at listings e h = absurd (h refl)
  route_leads s at (listing_detail id) e h = absurd (h refl)
  route_leads s at change_password e h = absurd (h refl)
  route_leads s at any e h = absurd (h refl)

  -- Where a guarded page is opened, the visitor ends at the page for a new password.
  abbrev pub AsksForPassword : AuthState → Type 0
  AsksForPassword s =
      (at : Place)
      → protection (router.route at.path) ≢ open_route
      → visit router s 1 at ≡ some (page change_password)

  guard_asks :
      (b : Bool) (at : String) (r : Route)
      → settle router password_change_required 1 (protected_route b password_change_required at r)
        ≡ some (page change_password)
  unfolding settle app
  guard_asks b at r = rw (router.at_change_password, settle) refl

  route_asks :
      (at : Place) (r : Route)
      → protection r ≢ open_route
      → settle router password_change_required 1 (app password_change_required at r)
        ≡ some (page change_password)
  unfolding app
  route_asks at new_listing h = guard_asks false at.path new_listing
  route_asks at (edit_listing id) h = guard_asks false at.path (edit_listing id)
  route_asks at my_listings h = guard_asks false at.path my_listings
  route_asks at profile h = guard_asks false at.path profile
  route_asks at admin_users h = guard_asks true at.path admin_users
  route_asks at admin_listings h = guard_asks true at.path admin_listings
  route_asks at home h = absurd (h refl)
  route_asks at login h = absurd (h refl)
  route_asks at register h = absurd (h refl)
  route_asks at listings h = absurd (h refl)
  route_asks at (listing_detail id) h = absurd (h refl)
  route_asks at change_password h = absurd (h refl)
  route_asks at any h = absurd (h refl)

  pub guards_ask : AsksForPassword password_change_required
  unfolding visit
  guards_ask at h = route_asks at (router.route at.path) h

  pub HasEnded-IsShutOut : (s : AuthState) → HasEnded s → IsShutOut s
  unfolding visit
  HasEnded-IsShutOut s e at h = route_leads s at (router.route at.path) e h

module _ {J : Type 0} where
  abbrev pub demand : ApiErrorEnvelope → Response J
  demand e = record { status = 403; body = some (envelope e) }

-- What a 403 that asks for a new password does to the variables that the calls share.
deliver-demand :
    (J : Type 0) (target : CallTarget) (retry : Bool) (e : ApiErrorEnvelope) (c : Shared)
    → e.code ≡ "PASSWORD_CHANGE_REQUIRED"
    → c.handlers ≡ true
    → (deliver {J = J} (some (demand e)) (fetching target (awaiting_response retry)) c).1
      ≡ record c { notices = Notice.password_change_required ∷ c.notices }
unfolding deliver
deliver-demand J target retry e c code live =
    ground (arith, eq_iff e.code "PASSWORD_CHANGE_REQUIRED")

module _ {J : Type 0} where
  deliver_at-demand :
      (i : ℕ) (target : CallTarget) (retry : Bool) (e : ApiErrorEnvelope) (js : List (Job J))
      (c : Shared)
      → get_elem? js i ≡ some (fetching target (awaiting_response retry))
      → e.code ≡ "PASSWORD_CHANGE_REQUIRED"
      → c.handlers ≡ true
      → (deliver_at i (some (demand e)) js c).1
        ≡ record c { notices = Notice.password_change_required ∷ c.notices }
  unfolding deliver_at
  deliver_at-demand i target retry e [] c at code live = absurd (cc)
  deliver_at-demand zero target retry e (j ∷ js) c at code live =
      let same : j ≡ fetching target (awaiting_response retry) = cc in
      rw same (deliver-demand J target retry e c code live)
  deliver_at-demand (suc i) target retry e (j ∷ js) c at code live =
      deliver_at-demand i target retry e js c at code live

module _ {J : Type 0} (read_user : Option (Document J) → User) (read_token : Document J → String)
    (router : Router) where
  -- If a call has had a 401 and the refresh that it waits for is refused while `AuthProvider` is mounted, whatever else
  -- is under way, then the access token is gone, nobody is logged in, and every guarded page leads to the login page
  -- or to the one for a new password.
  pub refusal_ends_session :
      (s : System J)
      → s.world.shared.refresh_in_flight ≡ true
      → s.world.shared.handlers ≡ true
      → unauthorized s.world.jobs ≢ 0
      → let s' = step read_user read_token s (refresh_ended refused) in
        (s'.world.shared.access_token ≡ none)
        × HasEnded s'.auth.state
        × IsShutOut router s'.auth.state
  unfolding step
  refusal_ends_session s busy live some_401 =
      let (gone, told) = settle_refused s.world busy live in
      let ended =
        expiries_end (Client.step s.world (Event.settle_refresh refused)).shared.notices s.auth
          (λ e. some_401 (omega (arith, told))) in
      (gone, ended, HasEnded-IsShutOut router _ ended)

  -- If any call of any part of the program is answered by a 403 that asks for a new password while `AuthProvider` is
  -- mounted, whatever else is under way, then the session waits for the new password, the last navigation leads to the
  -- page for it, every guarded page does so too, and the access token is kept.
  pub demand_leads_to_change :
      (s : System J) (i : ℕ) (target : CallTarget) (retry : Bool) (e : ApiErrorEnvelope)
      → get_elem? s.world.jobs i ≡ some (fetching target (awaiting_response retry))
      → e.code ≡ "PASSWORD_CHANGE_REQUIRED"
      → s.world.shared.handlers ≡ true
      → let s' = step read_user read_token s (answered i (demand e)) in
        (s'.auth.state ≡ password_change_required)
        × (get_elem? s'.auth.navigations 0 ≡ some "/change-password")
        × AsksForPassword router s'.auth.state
        × (s'.world.shared.access_token ≡ s.world.shared.access_token)
  unfolding step Client.step Auth.step
  demand_leads_to_change s i target retry e at code live =
      rw (deliver_at-demand i target retry e s.world.jobs s.world.shared at code live)
        (refl, refl, guards_ask router, refl)
