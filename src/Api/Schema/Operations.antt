-- ===== src/Api/Schema/Operations.antt =====
-- `operations` of frontend/src/api/schema.ts, which is generated from the server's OpenAPI document.
use punah_pustak.Common.{◌∷◌, [], none, some}
use punah_pustak.Api.Schema.Types.{
  required, optional, application_json, multipart_form_data, Operation,
}

abbrev pub get_health_op : Operation
get_health_op = record {
  query = [];
  path_params = [];
  cookies = [];
  request_body = none;
  responses = (200, some "HealthResponse") ∷ [];
}

abbrev pub register_op : Operation
register_op = record {
  query = [];
  path_params = [];
  cookies = [];
  request_body = some (application_json, "RegisterRequest");
  responses = (201, some "UserPublic") ∷ (422, some "HTTPValidationError") ∷ [];
}

abbrev pub login_op : Operation
login_op = record {
  query = [];
  path_params = [];
  cookies = [];
  request_body = some (application_json, "LoginRequest");
  responses = (200, some "AccessTokenResponse") ∷ (422, some "HTTPValidationError") ∷ [];
}

abbrev pub refresh_op : Operation
refresh_op = record {
  query = [];
  path_params = [];
  cookies = "refresh_token" ∷ [];
  request_body = none;
  responses = (200, some "AccessTokenResponse") ∷ (422, some "HTTPValidationError") ∷ [];
}

abbrev pub logout_op : Operation
logout_op = record {
  query = [];
  path_params = [];
  cookies = "refresh_token" ∷ [];
  request_body = none;
  responses = (204, none) ∷ (422, some "HTTPValidationError") ∷ [];
}

abbrev pub browse_listings_op : Operation
browse_listings_op = record {
  query =
      ("search", optional)
      ∷ ("category", optional)
      ∷ ("condition", optional)
      ∷ ("min_price", optional)
      ∷ ("max_price", optional)
      ∷ ("page", optional)
      ∷ ("page_size", optional)
      ∷ [];
  path_params = [];
  cookies = [];
  request_body = none;
  responses = (200, some "ListingPage") ∷ (422, some "HTTPValidationError") ∷ [];
}

abbrev pub create_listing_op : Operation
create_listing_op = record {
  query = [];
  path_params = [];
  cookies = [];
  request_body = some (application_json, "ListingCreate");
  responses = (201, some "ListingPublic") ∷ (422, some "HTTPValidationError") ∷ [];
}

abbrev pub get_listing_op : Operation
get_listing_op = record {
  query = [];
  path_params = "listing_id" ∷ [];
  cookies = [];
  request_body = none;
  responses = (200, some "ListingPublic") ∷ (422, some "HTTPValidationError") ∷ [];
}

abbrev pub delete_listing_op : Operation
delete_listing_op = record {
  query = [];
  path_params = "listing_id" ∷ [];
  cookies = [];
  request_body = none;
  responses = (204, none) ∷ (422, some "HTTPValidationError") ∷ [];
}

abbrev pub update_listing_op : Operation
update_listing_op = record {
  query = [];
  path_params = "listing_id" ∷ [];
  cookies = [];
  request_body = some (application_json, "ListingUpdate");
  responses = (200, some "ListingPublic") ∷ (422, some "HTTPValidationError") ∷ [];
}

abbrev pub mark_listing_sold_op : Operation
mark_listing_sold_op = record {
  query = [];
  path_params = "listing_id" ∷ [];
  cookies = [];
  request_body = none;
  responses = (200, some "ListingPublic") ∷ (422, some "HTTPValidationError") ∷ [];
}

abbrev pub upload_listing_images_op : Operation
upload_listing_images_op = record {
  query = [];
  path_params = "listing_id" ∷ [];
  cookies = [];
  request_body =
      some (
        multipart_form_data, "Body_upload_listing_images_api_v1_listings__listing_id__images_post",
      );
  responses = (201, some "ListingImagePublic[]") ∷ (422, some "HTTPValidationError") ∷ [];
}

abbrev pub get_my_listings_op : Operation
get_my_listings_op = record {
  query = [];
  path_params = [];
  cookies = [];
  request_body = none;
  responses = (200, some "ListingPublic[]") ∷ [];
}

abbrev pub get_my_listings_summary_op : Operation
get_my_listings_summary_op = record {
  query = [];
  path_params = [];
  cookies = [];
  request_body = none;
  responses = (200, some "ListingStatusSummary") ∷ [];
}

abbrev pub get_own_profile_op : Operation
get_own_profile_op = record {
  query = [];
  path_params = [];
  cookies = [];
  request_body = none;
  responses = (200, some "UserPublic") ∷ [];
}

abbrev pub update_own_profile_op : Operation
update_own_profile_op = record {
  query = [];
  path_params = [];
  cookies = [];
  request_body = some (application_json, "UserUpdate");
  responses = (200, some "UserPublic") ∷ (422, some "HTTPValidationError") ∷ [];
}

abbrev pub change_own_password_op : Operation
change_own_password_op = record {
  query = [];
  path_params = [];
  cookies = [];
  request_body = some (application_json, "PasswordChangeRequest");
  responses = (204, none) ∷ (422, some "HTTPValidationError") ∷ [];
}

abbrev pub list_users_op : Operation
list_users_op = record {
  query = ("page", optional) ∷ ("page_size", optional) ∷ [];
  path_params = [];
  cookies = [];
  request_body = none;
  responses = (200, some "AdminUserPage") ∷ (422, some "HTTPValidationError") ∷ [];
}

abbrev pub suspend_user_op : Operation
suspend_user_op = record {
  query = [];
  path_params = "user_id" ∷ [];
  cookies = [];
  request_body = some (application_json, "SuspendUserRequest");
  responses = (200, some "AdminUserPublic") ∷ (422, some "HTTPValidationError") ∷ [];
}

abbrev pub reinstate_user_op : Operation
reinstate_user_op = record {
  query = [];
  path_params = "user_id" ∷ [];
  cookies = [];
  request_body = none;
  responses = (200, some "AdminUserPublic") ∷ (422, some "HTTPValidationError") ∷ [];
}

abbrev pub reset_password_op : Operation
reset_password_op = record {
  query = [];
  path_params = "user_id" ∷ [];
  cookies = [];
  request_body = none;
  responses = (200, some "AdminPasswordResetResponse") ∷ (422, some "HTTPValidationError") ∷ [];
}

abbrev pub list_listings_op : Operation
list_listings_op = record {
  query = ("status", optional) ∷ ("page", optional) ∷ ("page_size", optional) ∷ [];
  path_params = [];
  cookies = [];
  request_body = none;
  responses = (200, some "ListingPage") ∷ (422, some "HTTPValidationError") ∷ [];
}

abbrev pub remove_listing_op : Operation
remove_listing_op = record {
  query = ("reason_code", required) ∷ [];
  path_params = "listing_id" ∷ [];
  cookies = [];
  request_body = none;
  responses = (204, none) ∷ (422, some "HTTPValidationError") ∷ [];
}
