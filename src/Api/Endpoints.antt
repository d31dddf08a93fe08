-- ===== src/Api/Endpoints.antt =====
-- frontend/src/api/listings.ts, users.ts, auth.ts and admin.ts: the request that each function hands to `apiFetch`,
-- and `buildUrl` of client.ts.
--
-- `N` is the type of JavaScript's numbers, `J` that of JSON bodies, `F` that of files. A URL is its path with the
-- entries of its query; writing it down is the browser's `URL`.
pub mod Reading
pub mod Refreshing
pub mod Types
mod Tests
use punah_pustak.Common.{
  ℕ, String, Option, none, some, List, [], ◌∷◌, ◌++◌, Dict, assign, truthy, if◌then◌else◌,
}
use punah_pustak.Js.{◌⧺◌}

pub data Method : Type 0 where
  get post patch delete : Method

-- A value of `query`.
pub data Value (N : Type 0) : Type 0 where
  text : String → Value N
  number : N → Value N

pub data Body (J F : Type 0) : Type 0 where
  no_body : Body J F
  json : J → Body J F
  -- the `{ reason_code }` of a suspension
  reason : String → Body J F
  -- a `FormData`, with the names of its parts
  form_data : List (String × F) → Body J F

-- The arguments of `apiFetch`; `query` is empty where there is none.
pub record Request (N J F : Type 0) : Type 0 where
  pub method : Method
  pub path : String
  pub query : Dict (Option (Value N))
  pub body : Body J F

pub record BrowseFilters (N : Type 0) : Type 0 where
  pub search : Option String
  pub category : Option String
  pub condition : Option String
  pub min_price : Option N
  pub max_price : Option N
  pub page : Option N
  pub page_size : Option N

pub record PageParams (N : Type 0) : Type 0 where
  pub page : Option N
  pub page_size : Option N

pub data ListingCall (N J F : Type 0) : Type 0 where
  browse_listings : BrowseFilters N → ListingCall N J F
  get_listing : String → ListingCall N J F
  create_listing : J → ListingCall N J F
  update_listing : String → J → ListingCall N J F
  delete_listing : String → ListingCall N J F
  mark_listing_sold : String → ListingCall N J F
  upload_listing_images : String → List F → ListingCall N J F
  get_my_listings : ListingCall N J F

pub data UserCall (J : Type 0) : Type 0 where
  get_own_profile : UserCall J
  update_own_profile : J → UserCall J
  change_own_password : J → UserCall J
  get_own_listings_summary : UserCall J

pub data AuthCall (J : Type 0) : Type 0 where
  register : J → AuthCall J
  login : J → AuthCall J
  logout : AuthCall J

pub data AdminCall (N : Type 0) : Type 0 where
  list_users : PageParams N → AdminCall N
  suspend_user : String → String → AdminCall N
  reinstate_user : String → AdminCall N
  reset_user_password : String → AdminCall N
  list_admin_listings : PageParams N → Option String → AdminCall N
  remove_listing : String → String → AdminCall N

pub data Call (N J F : Type 0) : Type 0 where
  listings : ListingCall N J F → Call N J F
  users : UserCall J → Call N J F
  auth : AuthCall J → Call N J F
  admin : AdminCall N → Call N J F

abbrev value : {A N : Type 0} → (A → Value N) → Option A → Option (Value N)
value f none = none
value f (some x) = some (f x)

abbrev listing_path : String → String
listing_path id = "/api/v1/listings/" ⧺ id

abbrev admin_user_path : String → String
admin_user_path id = "/api/v1/admin/users/" ⧺ id

abbrev parts : {F : Type 0} → List F → List (String × F)
parts [] = []
parts (file ∷ files) = ("images", file) ∷ parts files

abbrev pub browse_entries : {N : Type 0} → BrowseFilters N → Dict (Option (Value N))
browse_entries filters =
    ("search", value text filters.search)
    ∷ ("category", value text filters.category)
    ∷ ("condition", value text filters.condition)
    ∷ ("min_price", value number filters.min_price)
    ∷ ("max_price", value number filters.max_price)
    ∷ ("page", value number filters.page)
    ∷ ("page_size", value number filters.page_size)
    ∷ []

abbrev pub authorization_header : Option String → Dict String
authorization_header none = []
authorization_header (some t) = if truthy t then ("Authorization", "Bearer " ⧺ t) ∷ [] else []

abbrev pub content_header : {J F : Type 0} → Body J F → Dict String
content_header no_body = []
content_header (json _) = ("Content-Type", "application/json") ∷ []
content_header (reason _) = ("Content-Type", "application/json") ∷ []
content_header (form_data _) = []

-- The headers that `performFetch` sets; that of a form is the browser's.
unfoldable pub headers : {J F : Type 0} → Option String → Body J F → Dict String
headers token body = authorization_header token ++ content_header body

module _ {N J F : Type 0} where
  abbrev plain : Method → String → Request N J F
  plain m p = record { method = m; path = p; query = []; body = no_body }

  abbrev sending : Method → String → J → Request N J F
  sending m p j = record { method = m; path = p; query = []; body = json j }

  abbrev querying : String → Dict (Option (Value N)) → Request N J F
  querying p q = record { method = get; path = p; query = q; body = no_body }

  unfoldable pub listing_request : ListingCall N J F → Request N J F
  listing_request (browse_listings filters) = querying "/api/v1/listings" (browse_entries filters)
  listing_request (get_listing id) = plain get (listing_path id)
  listing_request (create_listing body) = sending post "/api/v1/listings" body
  listing_request (update_listing id body) = sending patch (listing_path id) body
  listing_request (delete_listing id) = plain delete (listing_path id)
  listing_request (mark_listing_sold id) = plain post (listing_path (id ⧺ "/sold"))
  listing_request (upload_listing_images id files) = record {
    method = post;
    path = listing_path (id ⧺ "/images");
    query = [];
    body = form_data (parts files);
  }
  listing_request get_my_listings = plain get "/api/v1/users/me/listings"

  unfoldable pub user_request : UserCall J → Request N J F
  user_request get_own_profile = plain get "/api/v1/users/me"
  user_request (update_own_profile body) = sending patch "/api/v1/users/me" body
  user_request (change_own_password body) = sending post "/api/v1/users/me/password" body
  user_request get_own_listings_summary = plain get "/api/v1/users/me/listings/summary"

  unfoldable pub auth_request : AuthCall J → Request N J F
  auth_request (register body) = sending post "/api/v1/auth/register" body
  auth_request (login body) = sending post "/api/v1/auth/login" body
  auth_request logout = plain post "/api/v1/auth/logout"

  unfoldable pub admin_request : AdminCall N → Request N J F
  admin_request (list_users params) =
      querying "/api/v1/admin/users"
        (("page", value number params.page) ∷ ("page_size", value number params.page_size) ∷ [])
  admin_request (suspend_user id code) = record {
    method = post;
    path = admin_user_path (id ⧺ "/suspend");
    query = [];
    body = reason code;
  }
  admin_request (reinstate_user id) = plain post (admin_user_path (id ⧺ "/reinstate"))
  admin_request (reset_user_password id) = plain post (admin_user_path (id ⧺ "/reset-password"))
  admin_request (list_admin_listings params status) = querying "/api/v1/admin/listings" (
      ("status", value text status)
      ∷ ("page", value number params.page)
      ∷ ("page_size", value number params.page_size)
      ∷ [])
  admin_request (remove_listing id code) = record {
    method = delete;
    path = "/api/v1/admin/listings/" ⧺ id;
    query = ("reason_code", some (text code)) ∷ [];
    body = no_body;
  }

  unfoldable pub request : Call N J F → Request N J F
  unfolding listing_request user_request auth_request admin_request
  request (listings c) = listing_request c
  request (users c) = user_request c
  request (auth c) = auth_request c
  request (admin c) = admin_request c

-- `String(value)`, where `to_text` is that of a number.
module _ {N : Type 0} (to_text : N → String) where
  abbrev pub value_text : Value N → String
  value_text (text s) = s
  value_text (number n) = to_text n

  abbrev set_param : String → Option (Value N) → Dict String → Dict String
  set_param key none params = params
  set_param key (some v) params = assign key (value_text v) params

  -- The loop of `buildUrl`.
  abbrev set_params : Dict (Option (Value N)) → Dict String → Dict String
  set_params [] params = params
  set_params ((key, v) ∷ query) params = set_params query (set_param key v params)

  -- The entries of the query of the URL that `buildUrl` writes.
  unfoldable pub search_params : Dict (Option (Value N)) → Dict String
  search_params query = set_params query []
