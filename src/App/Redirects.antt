-- ===== src/App/Redirects.antt =====
-- Redirects end, and end where the visitor may be.
use punah_pustak.Common.{
  ℕ, suc, ◌≡◌, ◌≢◌, refl, String, Bool, true, false, some, arith, Bool-cases, ◌&&◌, not, inl, inr,
  or_else,
}
use punah_pustak.Auth.{
  User, AuthState, loading, unauthenticated, password_change_required, authenticated,
}
use punah_pustak.App.{
  Route, home, login, register, listings, listing_detail, change_password, new_listing,
  edit_listing, my_listings, profile, admin_users, admin_listings, any, Protection, open_route,
  signed_in, admin_only, protection, Router, Place, Rendered, loading_message, page, replaced_by,
  is_admin, place, protected_route, app, settle, visit,
}

abbrev is_signed_in : AuthState → Bool
is_signed_in (authenticated u) = true
is_signed_in loading = false
is_signed_in unauthenticated = false
is_signed_in password_change_required = false

abbrev is_signed_in_admin : AuthState → Bool
is_signed_in_admin (authenticated u) = is_admin u.role
is_signed_in_admin loading = false
is_signed_in_admin unauthenticated = false
is_signed_in_admin password_change_required = false

abbrev permits : Protection → AuthState → Bool
permits open_route s = true
permits signed_in s = is_signed_in s
permits admin_only s = is_signed_in_admin s

-- Whether a page may be shown in the end: not the catch-all, the login page only to a visitor who
-- is not logged in, a protected page only to those it is for.
abbrev pub may_show : Route → AuthState → Bool
may_show any s = false
may_show login s = not (is_signed_in s)
may_show r s = permits (protection r) s

-- What may be rendered in the end: such a page, or the loading message while it is not known who
-- the visitor is.
abbrev pub MayEnd : AuthState → Rendered → Type 0
MayEnd s (replaced_by _) = ⊥
MayEnd s loading_message = s ≡ loading
MayEnd s (page r) = may_show r s ≡ true

-- Following at most `n` replacements from `x`.
abbrev pub Settles : Router → AuthState → ℕ → Rendered → Type 0
Settles router s n x = (r : Rendered) × (settle router s n x ≡ some r) × MayEnd s r

module _ (router : Router) where
  via_home : (s : AuthState) (n : ℕ) → Settles router s (suc n) (replaced_by (place "/"))
  unfolding settle app
  via_home loading n = (page home, rw (router.at_home, settle) refl, refl)
  via_home unauthenticated n = (page home, rw (router.at_home, settle) refl, refl)
  via_home password_change_required n = (page home, rw (router.at_home, settle) refl, refl)
  via_home (authenticated u) n = (page home, rw (router.at_home, settle) refl, refl)

  -- A guarded page: the visitor may see it, or is led elsewhere by one replacement.
  via_guard :
      (b : Bool) (s : AuthState) (n : ℕ) (at : String) (r : Route)
      → ((u : User) → s ≡ authenticated u → b && not (is_admin u.role) ≡ false → MayEnd s (page r))
      → Settles router s (suc n) (protected_route b s at r)
  unfolding settle app
  via_guard b loading n at r h = (loading_message, refl, refl)
  via_guard b unauthenticated n at r h = (page login, rw (router.at_login, settle) refl, refl)
  via_guard b password_change_required n at r h =
      (page change_password, rw (router.at_change_password, settle) refl, refl)
  via_guard b (authenticated u) n at r h = elim (Bool-cases (b && not (is_admin u.role))) [
    | inl led ↦ rw (led, protected_route) (via_home (authenticated u) n)
    | inr may ↦ rw (may, protected_route) (page r, refl, h u refl may)
  ]

  signed_in_page :
      (b : Bool) (s : AuthState) (n : ℕ) (at : String) (r : Route)
      → may_show r ≡ is_signed_in
      → Settles router s (suc n) (protected_route b s at r)
  signed_in_page b s n at r e = via_guard b s n at r (λ u p _. rw e (rw p refl))

  admin_page :
      (s : AuthState) (n : ℕ) (at : String) (r : Route)
      → may_show r ≡ is_signed_in_admin
      → Settles router s (suc n) (protected_route true s at r)
  admin_page s n at r e = via_guard true s n at r (λ u p q. rw e (rw p (ground arith)))

  -- Every route but the login page, which may lead anywhere.
  via_route :
      (s : AuthState) (n : ℕ) (at : Place) (r : Route)
      → r ≢ login
      → Settles router s (suc n) (app s at r)
  unfolding app settle
  via_route s n at login h = absurd (h refl)
  via_route s n at any h = via_home s n
  via_route s n at new_listing h = signed_in_page false s n at.path new_listing refl
  via_route s n at (edit_listing id) h = signed_in_page false s n at.path (edit_listing id) refl
  via_route s n at my_listings h = signed_in_page false s n at.path my_listings refl
  via_route s n at profile h = signed_in_page false s n at.path profile refl
  via_route s n at admin_users h = admin_page s n at.path admin_users refl
  via_route s n at admin_listings h = admin_page s n at.path admin_listings refl
  via_route s n at home h = (page home, refl, refl)
  via_route s n at register h = (page register, refl, refl)
  via_route s n at listings h = (page listings, refl, refl)
  via_route s n at (listing_detail id) h = (page (listing_detail id), refl, refl)
  via_route s n at change_password h = (page change_password, refl, refl)

  -- The place that the login page sends a visitor to holds no `from`, so that it ends there, or,
  -- if that is the login page again, at home.
  via_place :
      (u : User) (n : ℕ) (p : String) (r : Route)
      → Settles router (authenticated u) (suc (suc n)) (app (authenticated u) (place p) r)
  via_place u n p login = unfold app settle in via_home (authenticated u) (suc n)
  via_place u n p r = via_route (authenticated u) (suc n) (place p) r (λ e. cc)

  via_login :
      (s : AuthState) (n : ℕ) (at : Place) → Settles router s (suc (suc (suc n))) (app s at login)
  unfolding app settle
  via_login loading n at = (page login, refl, refl)
  via_login unauthenticated n at = (page login, refl, refl)
  via_login password_change_required n at = (page login, refl, refl)
  via_login (authenticated u) n at =
      via_place u n (or_else at.from "/") (router.route (or_else at.from "/"))

  Settles-route : (s : AuthState) (at : Place) (r : Route) → Settles router s 3 (app s at r)
  Settles-route s at login = via_login s 0 at
  Settles-route s at r = via_route s 2 at r (λ e. cc)

  -- Whoever the visitor is and wherever they go, at most three redirects follow one another, and
  -- they end at a page that this visitor may see (or at the loading message).
  pub redirects_end :
      (s : AuthState) (at : Place) → (r : Rendered) × (visit router s 3 at ≡ some r) × MayEnd s r
  unfolding visit
  redirects_end s at = Settles-route s at (router.route at.path)
