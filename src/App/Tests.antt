-- ===== src/App/Tests.antt =====
-- The redirects of concrete visitors.
use punah_pustak.Common.{◌≡◌, refl, some}
use punah_pustak.Auth.{authenticated}
use punah_pustak.App.{home, Rendered, page, Place, visit, settle, app}
use punah_pustak.App.Samples.{static_router, reader}
use punah_pustak.App.Redirects.{MayEnd, redirects_end}

-- A reader logged in by way of an admin page ends at home.
abbrev after_login : Place
after_login = record { path = "/login"; from = some "/admin/users" }

admin_page_refused : visit static_router (authenticated reader) 3 after_login ≡ some (page home)
unfolding visit settle app
admin_page_refused = refl

redirects_end_example :
    (r : Rendered) × (visit static_router (authenticated reader) 3 after_login ≡ some r)
    × MayEnd (authenticated reader) r
redirects_end_example = redirects_end static_router (authenticated reader) after_login
