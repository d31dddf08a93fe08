-- ===== src/Api/Endpoints/Types.antt =====
-- The types that frontend/src/api/listings.ts, users.ts, auth.ts and admin.ts give to what they send and get, by the
-- names of types.ts, which are those of `components["schemas"]`.
use punah_pustak.Common.{String, Option, none, some}
use punah_pustak.Api.Endpoints.{
  ListingCall, browse_listings, get_listing, create_listing, update_listing, delete_listing,
  mark_listing_sold, upload_listing_images, get_my_listings, UserCall, get_own_profile,
  update_own_profile, change_own_password, get_own_listings_summary, AuthCall, register, login,
  logout, AdminCall, list_users, suspend_user, reinstate_user, reset_user_password,
  list_admin_listings, remove_listing, Call, listings, users, auth, admin,
}

-- The type of the parameter `body`, where there is one, and that of the answer: `none` for `void`.
pub record CallTypes : Type 0 where
  pub body : Option String
  pub answer : Option String

abbrev types : Option String → Option String → CallTypes
types body answer = record { body = body; answer = answer }

abbrev pub listing_types : {N J F : Type 0} → ListingCall N J F → CallTypes
listing_types (browse_listings _) = types none (some "ListingPage")
listing_types (get_listing _) = types none (some "ListingPublic")
listing_types (create_listing _) = types (some "ListingCreate") (some "ListingPublic")
listing_types (update_listing _ _) = types (some "ListingUpdate") (some "ListingPublic")
listing_types (delete_listing _) = types none none
listing_types (mark_listing_sold _) = types none (some "ListingPublic")
listing_types (upload_listing_images _ _) = types none (some "ListingImagePublic[]")
listing_types get_my_listings = types none (some "ListingPublic[]")

abbrev pub user_types : {J : Type 0} → UserCall J → CallTypes
user_types get_own_profile = types none (some "UserPublic")
user_types (update_own_profile _) = types (some "UserUpdate") (some "UserPublic")
user_types (change_own_password _) = types (some "PasswordChangeRequest") none
user_types get_own_listings_summary = types none (some "ListingStatusSummary")

abbrev pub auth_types : {J : Type 0} → AuthCall J → CallTypes
auth_types (register _) = types (some "RegisterRequest") (some "UserPublic")
auth_types (login _) = types (some "LoginRequest") (some "AccessTokenResponse")
auth_types logout = types none none

abbrev pub admin_types : {N : Type 0} → AdminCall N → CallTypes
admin_types (list_users _) = types none (some "AdminUserPage")
admin_types (suspend_user _ _) = types none (some "AdminUserPublic")
admin_types (reinstate_user _) = types none (some "AdminUserPublic")
admin_types (reset_user_password _) = types none (some "AdminPasswordResetResponse")
admin_types (list_admin_listings _ _) = types none (some "ListingPage")
admin_types (remove_listing _ _) = types none none

abbrev pub call_types : {N J F : Type 0} → Call N J F → CallTypes
call_types (listings c) = listing_types c
call_types (users c) = user_types c
call_types (auth c) = auth_types c
call_types (admin c) = admin_types c
