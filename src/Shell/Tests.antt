-- ===== src/Shell/Tests.antt =====
-- The header and the footer of concrete sessions.
use punah_pustak.Common.{◌≡◌, refl, true, false, [], ◌∷◌}
use punah_pustak.Auth.{unauthenticated, authenticated}
use punah_pustak.App.{visit, place, settle, app, login_page}
use punah_pustak.App.Samples.{static_router, reader}
use punah_pustak.Ui.View.{link, Leads, has_link}
use punah_pustak.Shell.{layout, header, update, menu_toggle, logout_from_menu}
use punah_pustak.Shell.Reach.{Arrives, links_arrive, offered_iff_open, of_administration, is_page}

menu_closes : update (update false menu_toggle) logout_from_menu ≡ false
unfolding update
menu_closes = refl

login_opens : Arrives static_router unauthenticated "/login"
unfolding visit settle app login_page
login_opens _ = tt

links_arrive_example :
    Leads
      (Arrives static_router unauthenticated)
      (layout unauthenticated true "/" (link "/login" "Log in" ∷ []))
links_arrive_example =
    links_arrive static_router unauthenticated true "/" (link "/login" "Log in" ∷ [])
      (login_opens, tt)

offered_iff_open_example :
    has_link "/admin/users" (header (authenticated reader) true)
    ≡ is_page (visit static_router (authenticated reader) 0 (place "/admin/users"))
offered_iff_open_example =
    offered_iff_open static_router (authenticated reader) true of_administration
