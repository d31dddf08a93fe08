-- ===== src/App.antt =====
-- frontend/src/App.tsx, auth/ProtectedRoute.tsx and the redirect of pages/LoginPage.tsx.
--
-- Matching a path against the route table is React Router's: it is the parameter `Router`, of which
-- the development uses what its documentation says of static paths.
pub mod Redirects
pub mod Samples
mod Tests
use punah_pustak.Common.{
  ℕ, zero, suc, ◌≡◌, String, Bool, true, false, not, ◌&&◌, Option, none, some, List, [], ◌∷◌,
  or_else, if◌then◌else◌,
}
use punah_pustak.Auth.{
  UserRole, user, admin, User, AuthState, loading, unauthenticated, password_change_required,
  authenticated,
}

-- The routes of `App`, in its order; `any` is `path="*"`.
pub data Route : Type 0 where
  home login register listings : Route
  listing_detail : String → Route
  change_password : Route
  new_listing : Route
  edit_listing : String → Route
  my_listings profile admin_users admin_listings any : Route

-- What an element of the route table does around its page.
pub data Protection : Type 0 where
  open_route : Protection
  signed_in : Protection
  admin_only : Protection

abbrev pub protection : Route → Protection
protection new_listing = signed_in
protection (edit_listing _) = signed_in
protection my_listings = signed_in
protection profile = signed_in
protection admin_users = admin_only
protection admin_listings = admin_only
protection _ = open_route

pub record Router : Type 0 where
  pub route : String → Route
  pub at_home : route "/" ≡ home
  pub at_login : route "/login" ≡ login
  pub at_change_password : route "/change-password" ≡ change_password
  pub at_register : route "/register" ≡ register
  pub at_listings : route "/listings" ≡ listings
  pub at_new_listing : route "/listings/new" ≡ new_listing
  pub at_my_listings : route "/my-listings" ≡ my_listings
  pub at_profile : route "/profile" ≡ profile
  pub at_admin_users : route "/admin/users" ≡ admin_users

-- A location: its path, and `location.state.from` if a guard put it there.
pub record Place : Type 0 where
  pub path : String
  pub from : Option String

-- What a route renders: a loading message, a page, or a replacement of the location.
pub data Rendered : Type 0 where
  loading_message : Rendered
  page : Route → Rendered
  replaced_by : Place → Rendered

abbrev pub is_admin : UserRole → Bool
is_admin user = false
is_admin admin = true

abbrev pub place : String → Place
place p = record { path = p; from = none }

-- `ProtectedRoute` around the page of the route `r`, at the path `at`.
unfoldable pub protected_route : Bool → AuthState → String → Route → Rendered
protected_route require_admin loading at r = loading_message
protected_route require_admin unauthenticated at r =
    replaced_by (record { path = "/login"; from = some at })
protected_route require_admin password_change_required at r = replaced_by (place "/change-password")
protected_route require_admin (authenticated u) at r =
    if require_admin && not (is_admin u.role) then replaced_by (place "/") else page r

-- The effect of `LoginPage`.
unfoldable pub login_page : AuthState → Option String → Rendered
login_page (authenticated u) from = replaced_by (place (or_else from "/"))
login_page _ from = page login

unfoldable pub app : AuthState → Place → Route → Rendered
unfolding protected_route login_page
app s at login = login_page s at.from
app s at any = replaced_by (place "/")
app s at home = page home
app s at register = page register
app s at listings = page listings
app s at (listing_detail id) = page (listing_detail id)
app s at change_password = page change_password
app s at new_listing = protected_route false s at.path new_listing
app s at (edit_listing id) = protected_route false s at.path (edit_listing id)
app s at my_listings = protected_route false s at.path my_listings
app s at profile = protected_route false s at.path profile
app s at admin_users = protected_route true s at.path admin_users
app s at admin_listings = protected_route true s at.path admin_listings

-- What is rendered in the end, if at most `n` replacements are followed; `none` if there are more.
unfoldable pub settle : Router → AuthState → ℕ → Rendered → Option Rendered
settle router s n loading_message = some loading_message
settle router s n (page r) = some (page r)
settle router s zero (replaced_by at) = none
settle router s (suc n) (replaced_by at) = settle router s n (app s at (router.route at.path))

-- The visitor opens a location.
unfoldable pub visit : Router → AuthState → ℕ → Place → Option Rendered
unfolding settle
visit router s n at = settle router s n (app s at (router.route at.path))
