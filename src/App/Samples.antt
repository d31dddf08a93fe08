-- ===== src/App/Samples.antt =====
-- A router and a reader, for instances.
use punah_pustak.Common.{refl, String, if◌then◌else◌, ◌==◌}
use punah_pustak.Auth.{user, User}
use punah_pustak.App.{
  Route, home, login, register, listings, new_listing, my_listings, profile, change_password,
  admin_users, any, Router,
}

abbrev paths : String → Route
paths p =
    if p == "/"
    then home
    else if p == "/login"
    then login
    else if p == "/change-password"
    then change_password
    else if p == "/admin/users"
    then admin_users
    else if p == "/register"
    then register
    else if p == "/listings"
    then listings
    else if p == "/listings/new"
    then new_listing
    else if p == "/my-listings"
    then my_listings
    else if p == "/profile"
    then profile
    else any

abbrev pub static_router : Router
static_router = record {
  route = paths;
  at_home = refl;
  at_login = refl;
  at_change_password = refl;
  at_register = refl;
  at_listings = refl;
  at_new_listing = refl;
  at_my_listings = refl;
  at_profile = refl;
  at_admin_users = refl;
}

abbrev pub reader : User
reader = record {
  id = "u";
  email = "r@x.org";
  display_name = "Reader";
  role = user;
  created_at = "2026-01-01";
}
