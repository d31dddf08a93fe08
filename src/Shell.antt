-- ===== src/Shell.antt =====
-- frontend/src/components/Layout.tsx, Footer.tsx and Logo.tsx: the header, the menu and the footer around every page.
--
-- Both navigations are part of the view: the styles hide the one or the other. Which entry is marked as the current
-- one is React Router's, but for the administration, which has `is_admin_route`.
pub mod Links
pub mod Reach
mod Tests
use package.text.Mathlib.Text.{starts_with}
use punah_pustak.Common.{String, Bool, true, false, not, ◌||◌, List, [], ◌∷◌, ◌++◌, if◌then◌else◌}
use punah_pustak.Auth.{
  User, AuthState, loading, unauthenticated, password_change_required, authenticated,
}
use punah_pustak.App.{is_admin}
use punah_pustak.Ui.View.{View, Item, text, link, button, when}

-- `logout` is the provider's, `navigate` the router's.
pub data LayoutEvent : Type 0 where
  menu_toggle : LayoutEvent
  menu_close : LayoutEvent
  logout : LayoutEvent
  logout_from_menu : LayoutEvent
  navigate : String → LayoutEvent

pub data Session : Type 0 where
  out unsettled : Session
  signed_in : (is_admin_user : Bool) → Session

-- `isAuthenticated`, `isAdmin` and `state.status === "unauthenticated"`
unfoldable pub session : AuthState → Session
session loading = unsettled
session unauthenticated = out
session password_change_required = unsettled
session (authenticated u) = signed_in (is_admin u.role)

unfoldable pub is_admin_route : String → Bool
is_admin_route pathname = starts_with pathname "/admin"

abbrev pub marks_admin : (is_active : Bool) → String → Bool
marks_admin is_active pathname = is_active || is_admin_route pathname

abbrev browse_links : View LayoutEvent
browse_links = link "/listings" "Browse" ∷ link "/listings/new" "List a copy" ∷ []

abbrev signed_in_links : Bool → View LayoutEvent
signed_in_links is_admin_user =
    link "/my-listings" "My listings"
    ∷ link "/profile" "Profile"
    ∷ when is_admin_user (link "/admin/users" "Admin" ∷ [])

abbrev account_links : Session → View LayoutEvent
account_links (signed_in is_admin_user) = signed_in_links is_admin_user
account_links out = []
account_links unsettled = []

abbrev account_controls : Session → View LayoutEvent
account_controls (signed_in _) = button "Log out" false logout ∷ []
account_controls out = link "/login" "Log in" ∷ button "Register" false (navigate "/register") ∷ []
account_controls unsettled = []

abbrev menu_button : Bool → View LayoutEvent
menu_button is_menu_open =
    button (if is_menu_open then "Close menu" else "Open menu") false menu_toggle ∷ []

abbrev mobile_account : Session → View LayoutEvent
mobile_account (signed_in is_admin_user) =
    signed_in_links is_admin_user ++ (button "Log out" false logout_from_menu ∷ [])
mobile_account _ = link "/login" "Log in" ∷ link "/register" "Register" ∷ []

abbrev mobile_nav : Session → View LayoutEvent
mobile_nav s = browse_links ++ mobile_account s

unfoldable pub header : AuthState → Bool → View LayoutEvent
unfolding session
header s is_menu_open =
    link "#main-content" "Skip to main content"
    ∷ link "/" "Punah-Pustak"
    ∷ (browse_links
        ++ (account_links (session s)
            ++ (account_controls (session s)
                ++ (menu_button is_menu_open ++ when is_menu_open (mobile_nav (session s))))))

abbrev footer_account : Session → View LayoutEvent
footer_account (signed_in _) = link "/my-listings" "My listings" ∷ []
footer_account _ = link "/login" "Log in" ∷ []

unfoldable pub footer : AuthState → View LayoutEvent
unfolding session
footer s =
    text "Punah-Pustak"
    ∷ text "punah, again; pustak, book. Exchange happens between you and the seller, off-site."
    ∷ (browse_links ++ footer_account (session s))

-- `Layout` around the page that `Outlet` renders.
unfoldable pub layout : AuthState → Bool → String → View LayoutEvent → View LayoutEvent
unfolding header footer is_admin_route
layout s is_menu_open pathname outlet =
    header s is_menu_open ++ (outlet ++ when (not (is_admin_route pathname)) (footer s))

-- `isMenuOpen` after an event. Every link of the menu, and the wordmark, closes it.
unfoldable pub update : Bool → LayoutEvent → Bool
update is_menu_open menu_toggle = not is_menu_open
update is_menu_open menu_close = false
update is_menu_open logout_from_menu = false
update is_menu_open logout = is_menu_open
update is_menu_open (navigate _) = is_menu_open
