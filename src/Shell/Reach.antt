-- ===== src/Shell/Reach.antt =====
-- The links around every page, against the routes and guards of the application.
use package.text.Mathlib.Text.{starts_with}
use punah_pustak.Common.{ℕ, String, Bool, true, false, Option, some, ◌≡◌, arith}
use punah_pustak.Auth.{AuthState, loading, unauthenticated, password_change_required, authenticated}
use punah_pustak.App.{
  Router, Rendered, page, loading_message, place, visit, settle, app, protected_route, login_page,
}
use punah_pustak.Ui.View.{View, Leads, has_link}
use punah_pustak.Shell.{LayoutEvent, session, header, layout}
use punah_pustak.Shell.Links.{Leads-layout, Account}

-- A page or the loading message is reached.
abbrev pub Shown : Option Rendered → Type 0
Shown (some (page _)) = Unit
Shown (some loading_message) = Unit
Shown _ = ⊥

abbrev pub is_page : Option Rendered → Bool
is_page (some (page _)) = true
is_page _ = false

-- How many replacements a link may lead through.
abbrev pub replacements : AuthState → ℕ
replacements (authenticated u) = 0
replacements _ = 1

-- A place within the page, or a path at which something is rendered after at most that many replacements.
abbrev pub Arrives : Router → AuthState → String → Type 0
Arrives router s to =
    starts_with to "#" ≡ false → Shown (visit router s (replacements s) (place to))

module _ (router : Router) where
  home_open : (s : AuthState) → Arrives router s "/"
  unfolding visit settle app
  home_open s _ = rw router.at_home tt

  listings_open : (s : AuthState) → Arrives router s "/listings"
  unfolding visit settle app
  listings_open s _ = rw router.at_listings tt

  new_listing_open : (s : AuthState) → Arrives router s "/listings/new"
  unfolding visit settle app protected_route
  new_listing_open loading _ = rw router.at_new_listing tt
  new_listing_open unauthenticated _ =
      rw router.at_new_listing (rw (router.at_login, Shown, settle) tt)
  new_listing_open password_change_required _ =
      rw router.at_new_listing (rw (router.at_change_password, Shown, settle) tt)
  new_listing_open (authenticated u) _ = rw router.at_new_listing tt

  own_links_open : (s : AuthState) → Account (Arrives router s) (session s)
  unfolding visit settle app protected_route login_page session
  own_links_open loading = (λ _. rw router.at_login tt, λ _. rw router.at_register tt)
  own_links_open unauthenticated = (λ _. rw router.at_login tt, λ _. rw router.at_register tt)
  own_links_open password_change_required =
      (λ _. rw router.at_login tt, λ _. rw router.at_register tt)
  own_links_open (authenticated u) = (
    λ _. rw router.at_my_listings tt,
    λ _. rw router.at_profile tt,
    λ e _. rw (router.at_admin_users, e) tt,
  )

  -- Around whatever page, in every session and with the menu open or not, each link of the header, the menu and the
  -- footer, but the one to a place within the page, leads to a page of the application or its loading message, without
  -- a redirect for a visitor who is logged in and after one redirect at most for any other, where this holds of the
  -- links of the page itself.
  pub links_arrive :
      (s : AuthState) (is_menu_open : Bool) (pathname : String) (outlet : View LayoutEvent)
      → Leads (Arrives router s) outlet
      → Leads (Arrives router s) (layout s is_menu_open pathname outlet)
  links_arrive s o pathname outlet h =
      Leads-layout (Arrives router s)
        (λ e. ground arith, home_open s, listings_open s, new_listing_open s) s o pathname outlet
        (own_links_open s) h

pub data AccountPage : Type 0 where
  of_listings of_profile of_administration : AccountPage

abbrev pub path_of : AccountPage → String
path_of of_listings = "/my-listings"
path_of of_profile = "/profile"
path_of of_administration = "/admin/users"

module _ (router : Router) where
  -- The header links to a visitor's listings, to the profile and to the administration exactly for those for whom the
  -- page opens there without a redirect.
  pub offered_iff_open :
      (s : AuthState) (is_menu_open : Bool) (p : AccountPage)
      → has_link (path_of p) (header s is_menu_open)
        ≡ is_page (visit router s 0 (place (path_of p)))
  unfolding header visit settle app protected_route session
  offered_iff_open loading o of_listings = rw router.at_my_listings (ground arith)
  offered_iff_open loading o of_profile = rw router.at_profile (ground arith)
  offered_iff_open loading o of_administration = rw router.at_admin_users (ground arith)
  offered_iff_open unauthenticated o of_listings = rw router.at_my_listings (ground arith)
  offered_iff_open unauthenticated o of_profile = rw router.at_profile (ground arith)
  offered_iff_open unauthenticated o of_administration = rw router.at_admin_users (ground arith)
  offered_iff_open password_change_required o of_listings = rw router.at_my_listings (ground arith)
  offered_iff_open password_change_required o of_profile = rw router.at_profile (ground arith)
  offered_iff_open password_change_required o of_administration =
      rw router.at_admin_users (ground arith)
  offered_iff_open (authenticated u) o of_listings = rw router.at_my_listings (ground arith)
  offered_iff_open (authenticated u) o of_profile = rw router.at_profile (ground arith)
  offered_iff_open (authenticated u) o of_administration = rw router.at_admin_users (ground arith)
