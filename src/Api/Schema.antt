-- ===== src/Api/Schema.antt =====
-- frontend/src/api/schema.ts: the paths of the server and the operations behind them.
pub mod Types
pub mod Operations
pub mod Conformance
pub mod Answers
mod Tests
use punah_pustak.Common.{List, ◌∷◌, []}
use punah_pustak.Api.Endpoints.{get, post, patch, delete}
use punah_pustak.Api.Schema.Types.{literal, param, PathItem}
use punah_pustak.Api.Schema.Operations.{
  get_health_op, register_op, login_op, refresh_op, logout_op, browse_listings_op,
  create_listing_op, get_listing_op, delete_listing_op, update_listing_op, mark_listing_sold_op,
  upload_listing_images_op, get_my_listings_op, get_my_listings_summary_op, get_own_profile_op,
  update_own_profile_op, change_own_password_op, list_users_op, suspend_user_op, reinstate_user_op,
  reset_password_op, list_listings_op, remove_listing_op,
}

abbrev pub health_path : PathItem
health_path = record {
  template = literal "/api/v1/health" ∷ [];
  methods = (get, get_health_op) ∷ [];
}

abbrev pub auth_register_path : PathItem
auth_register_path = record {
  template = literal "/api/v1/auth/register" ∷ [];
  methods = (post, register_op) ∷ [];
}

abbrev pub auth_login_path : PathItem
auth_login_path = record {
  template = literal "/api/v1/auth/login" ∷ [];
  methods = (post, login_op) ∷ [];
}

abbrev pub auth_refresh_path : PathItem
auth_refresh_path = record {
  template = literal "/api/v1/auth/refresh" ∷ [];
  methods = (post, refresh_op) ∷ [];
}

abbrev pub auth_logout_path : PathItem
auth_logout_path = record {
  template = literal "/api/v1/auth/logout" ∷ [];
  methods = (post, logout_op) ∷ [];
}

abbrev pub listings_path : PathItem
listings_path = record {
  template = literal "/api/v1/listings" ∷ [];
  methods = (get, browse_listings_op) ∷ (post, create_listing_op) ∷ [];
}

abbrev pub listings_listing_id_path : PathItem
listings_listing_id_path = record {
  template = literal "/api/v1/listings/" ∷ param "listing_id" ∷ [];
  methods = (get, get_listing_op) ∷ (delete, delete_listing_op) ∷ (patch, update_listing_op) ∷ [];
}

abbrev pub listings_listing_id_sold_path : PathItem
listings_listing_id_sold_path = record {
  template = literal "/api/v1/listings/" ∷ param "listing_id" ∷ literal "/sold" ∷ [];
  methods = (post, mark_listing_sold_op) ∷ [];
}

abbrev pub listings_listing_id_images_path : PathItem
listings_listing_id_images_path = record {
  template = literal "/api/v1/listings/" ∷ param "listing_id" ∷ literal "/images" ∷ [];
  methods = (post, upload_listing_images_op) ∷ [];
}

abbrev pub users_me_listings_path : PathItem
users_me_listings_path = record {
  template = literal "/api/v1/users/me/listings" ∷ [];
  methods = (get, get_my_listings_op) ∷ [];
}

abbrev pub users_me_listings_summary_path : PathItem
users_me_listings_summary_path = record {
  template = literal "/api/v1/users/me/listings/summary" ∷ [];
  methods = (get, get_my_listings_summary_op) ∷ [];
}

abbrev pub users_me_path : PathItem
users_me_path = record {
  template = literal "/api/v1/users/me" ∷ [];
  methods = (get, get_own_profile_op) ∷ (patch, update_own_profile_op) ∷ [];
}

abbrev pub users_me_password_path : PathItem
users_me_password_path = record {
  template = literal "/api/v1/users/me/password" ∷ [];
  methods = (post, change_own_password_op) ∷ [];
}

abbrev pub admin_users_path : PathItem
admin_users_path = record {
  template = literal "/api/v1/admin/users" ∷ [];
  methods = (get, list_users_op) ∷ [];
}

abbrev pub admin_users_user_id_suspend_path : PathItem
admin_users_user_id_suspend_path = record {
  template = literal "/api/v1/admin/users/" ∷ param "user_id" ∷ literal "/suspend" ∷ [];
  methods = (post, suspend_user_op) ∷ [];
}

abbrev pub admin_users_user_id_reinstate_path : PathItem
admin_users_user_id_reinstate_path = record {
  template = literal "/api/v1/admin/users/" ∷ param "user_id" ∷ literal "/reinstate" ∷ [];
  methods = (post, reinstate_user_op) ∷ [];
}

abbrev pub admin_users_user_id_reset_password_path : PathItem
admin_users_user_id_reset_password_path = record {
  template = literal "/api/v1/admin/users/" ∷ param "user_id" ∷ literal "/reset-password" ∷ [];
  methods = (post, reset_password_op) ∷ [];
}

abbrev pub admin_listings_path : PathItem
admin_listings_path = record {
  template = literal "/api/v1/admin/listings" ∷ [];
  methods = (get, list_listings_op) ∷ [];
}

abbrev pub admin_listings_listing_id_path : PathItem
admin_listings_listing_id_path = record {
  template = literal "/api/v1/admin/listings/" ∷ param "listing_id" ∷ [];
  methods = (delete, remove_listing_op) ∷ [];
}

unfoldable pub paths : List PathItem
paths =
    health_path ∷ auth_register_path ∷ auth_login_path ∷ auth_refresh_path ∷ auth_logout_path
    ∷ listings_path ∷ listings_listing_id_path ∷ listings_listing_id_sold_path
    ∷ listings_listing_id_images_path ∷ users_me_listings_path ∷ users_me_listings_summary_path
    ∷ users_me_path ∷ users_me_password_path ∷ admin_users_path ∷ admin_users_user_id_suspend_path
    ∷ admin_users_user_id_reinstate_path ∷ admin_users_user_id_reset_password_path
    ∷ admin_listings_path ∷ admin_listings_listing_id_path ∷ []
