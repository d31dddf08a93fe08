-- ===== src/Api/Schema/Conformance.antt =====
-- The requests of the endpoint functions against the operations that the server declares.
use punah_pustak.Common.{
  ◌≡◌, refl, ◌==◌, String, Bool, true, false, ◌&&◌, ◌||◌, Option, none, some, List, [], ◌∷◌, Dict,
  or_else, lookup, get_elem?, ℕ,
}
use punah_pustak.Js.{◌⧺◌}
use punah_pustak.Api.Endpoints.{
  Body, no_body, json, reason, form_data, content_header, Request, request, Call, listings, users,
  auth, admin, browse_listings, get_listing, create_listing, update_listing, delete_listing,
  mark_listing_sold, upload_listing_images, get_my_listings, get_own_profile, update_own_profile,
  change_own_password, get_own_listings_summary, register, login, logout, list_users, suspend_user,
  reinstate_user, reset_user_password, list_admin_listings, remove_listing,
}
use punah_pustak.Api.Client.{is_ok}
use punah_pustak.Api.Endpoints.Types.{CallTypes, call_types}
use punah_pustak.Api.Schema.Types.{
  Piece, literal, param, Presence, required, optional, ContentType, application_json,
  multipart_form_data, Operation, PathItem,
}
use punah_pustak.Api.Schema.Operations
use punah_pustak.Api.Schema

abbrev piece_text : (String → String) → Piece → String
piece_text v (literal s) = s
piece_text v (param p) = v p

-- The ids that a call is given, under the names of the parameters that they are meant for.
abbrev pub ids : {N J F : Type 0} → Call N J F → Dict String
ids (listings (get_listing id)) = ("listing_id", id) ∷ []
ids (listings (update_listing id _)) = ("listing_id", id) ∷ []
ids (listings (delete_listing id)) = ("listing_id", id) ∷ []
ids (listings (mark_listing_sold id)) = ("listing_id", id) ∷ []
ids (listings (upload_listing_images id _)) = ("listing_id", id) ∷ []
ids (admin (suspend_user id _)) = ("user_id", id) ∷ []
ids (admin (reinstate_user id)) = ("user_id", id) ∷ []
ids (admin (reset_user_password id)) = ("user_id", id) ∷ []
ids (admin (remove_listing id _)) = ("listing_id", id) ∷ []
ids _ = []

abbrev pub value_in : Dict String → String → String
value_in d p = or_else (lookup p d) ""

-- A template with its parameters put in.
abbrev pub fill : (String → String) → List Piece → String
fill v [] = ""
fill v (p ∷ []) = piece_text v p
fill v (p ∷ q ∷ ps) = piece_text v p ⧺ fill v (q ∷ ps)

abbrev declares : List (String × Presence) → String → Bool
declares [] k = false
declares ((j, _) ∷ qs) k = (j == k) || declares qs k

-- Whether every entry of a query is declared.
abbrev pub all_declared : {V : Type 0} → List (String × Presence) → Dict V → Bool
all_declared qs [] = true
all_declared qs ((k, _) ∷ d) = declares qs k && all_declared qs d

abbrev given : {V : Type 0} → Option (Option V) → Bool
given none = false
given (some none) = false
given (some (some _)) = true

-- Whether every required parameter has a value.
abbrev pub all_given : {V : Type 0} → List (String × Presence) → Dict (Option V) → Bool
all_given [] d = true
all_given ((k, required) ∷ qs) d = given (lookup k d) && all_given qs d
all_given ((k, optional) ∷ qs) d = all_given qs d

abbrev declared_type : Option (ContentType × String) → Option ContentType
declared_type none = none
declared_type (some (t, _)) = some t

-- The type that a body is sent with: the browser sets that of a form.
abbrev sent_type : {J F : Type 0} → Body J F → Option ContentType
sent_type no_body = none
sent_type (json _) = some application_json
sent_type (reason _) = some application_json
sent_type (form_data _) = some multipart_form_data

abbrev header_value : Option ContentType → Option String
header_value (some application_json) = some "application/json"
header_value (some multipart_form_data) = none
header_value none = none

-- A body of a declared type is sent where the operation takes that type.
abbrev TakesBody : Option String → Operation → Type 0
TakesBody none op = Unit
TakesBody (some t) op = op.request_body ≡ some (application_json, t)

-- The operation declares an answer that is ok and has this content.
abbrev Answers : Option String → Operation → Type 0
Answers t op =
    (i : ℕ) × (status : ℕ) × (get_elem? op.responses i ≡ some (status, t)) × (is_ok status ≡ true)

-- The server declares the operation `op` for the method and the path of `r`, where the parameters of the path have
-- their values in `given_ids`; `r` has the query and the body that `op` takes, and `op` is declared with the types `ts`.
pub record Conforms {N J F : Type 0} (given_ids : Dict String) (ts : CallTypes) (r : Request N J F)
    : Type 0 where
  pub item : PathItem
  pub op : Operation
  pub is_path : (i : ℕ) × (get_elem? Schema.paths i ≡ some item)
  pub is_method : (i : ℕ) × (get_elem? item.methods i ≡ some (r.method, op))
  pub path : r.path ≡ fill (value_in given_ids) item.template
  pub names : all_declared op.query r.query ≡ true
  pub values : all_given op.query r.query ≡ true
  pub body : sent_type r.body ≡ declared_type op.request_body
  pub takes : TakesBody ts.body op
  pub answers : Answers ts.answer op
  pub header :
      lookup "Content-Type" (content_header r.body) ≡ header_value (declared_type op.request_body)

module _ {N J F : Type 0} where
  declared :
      (d : Dict String) (ts : CallTypes) (r : Request N J F) (i : ℕ) (item : PathItem) (k : ℕ)
      (op : Operation)
      → get_elem? Schema.paths i ≡ some item
      → get_elem? item.methods k ≡ some (r.method, op)
      → r.path ≡ fill (value_in d) item.template
      → all_declared op.query r.query ≡ true
      → all_given op.query r.query ≡ true
      → sent_type r.body ≡ declared_type op.request_body
      → TakesBody ts.body op
      → Answers ts.answer op
      → lookup "Content-Type" (content_header r.body) ≡ header_value (declared_type op.request_body)
      → Conforms d ts r
  declared d ts r i item k op is_path is_method path names values body takes answers header =
      record {
        item = item;
        op = op;
        is_path = (i, is_path);
        is_method = (k, is_method);
        path = path;
        names = names;
        values = values;
        body = body;
        takes = takes;
        answers = answers;
        header = header;
      }

  -- Every call of every endpoint function, whatever its arguments, is a request that the server declares: its method
  -- and its path are those of one operation, with each id that the call is given in the place of the parameter that it
  -- is meant for; each entry of its query is a parameter of that operation and each required parameter has a value; it
  -- has a body exactly if the operation takes one, of the content type that the operation takes, and says so by its
  -- Content-Type where that is JSON; where the function gives its body a type, that is the operation's, and the type
  -- that the function gives its answer is that of an answer that the operation declares and that is ok.
  pub request-Conforms : (c : Call N J F) → Conforms (ids c) (call_types c) (request c)
  unfolding request Schema.paths
  request-Conforms (listings (browse_listings f)) =
      declared _ _ _ 5 Schema.listings_path 0 Operations.browse_listings_op refl refl refl refl refl
        refl tt (0, 200, refl, refl) refl
  request-Conforms (listings (get_listing id)) =
      declared _ _ _ 6 Schema.listings_listing_id_path 0 Operations.get_listing_op refl refl refl
        refl refl refl tt (0, 200, refl, refl) refl
  request-Conforms (listings (create_listing b)) =
      declared _ _ _ 5 Schema.listings_path 1 Operations.create_listing_op refl refl refl refl refl
        refl refl (0, 201, refl, refl) refl
  request-Conforms (listings (update_listing id b)) =
      declared _ _ _ 6 Schema.listings_listing_id_path 2 Operations.update_listing_op refl refl refl
        refl refl refl refl (0, 200, refl, refl) refl
  request-Conforms (listings (delete_listing id)) =
      declared _ _ _ 6 Schema.listings_listing_id_path 1 Operations.delete_listing_op refl refl refl
        refl refl refl tt (0, 204, refl, refl) refl
  request-Conforms (listings (mark_listing_sold id)) =
      declared _ _ _ 7 Schema.listings_listing_id_sold_path 0 Operations.mark_listing_sold_op refl
        refl refl refl refl refl tt (0, 200, refl, refl) refl
  request-Conforms (listings (upload_listing_images id fs)) =
      declared _ _ _ 8 Schema.listings_listing_id_images_path 0 Operations.upload_listing_images_op
        refl refl refl refl refl refl tt (0, 201, refl, refl) refl
  request-Conforms (listings get_my_listings) =
      declared _ _ _ 9 Schema.users_me_listings_path 0 Operations.get_my_listings_op refl refl refl
        refl refl refl tt (0, 200, refl, refl) refl
  request-Conforms (users get_own_profile) =
      declared _ _ _ 11 Schema.users_me_path 0 Operations.get_own_profile_op refl refl refl refl
        refl refl tt (0, 200, refl, refl) refl
  request-Conforms (users (update_own_profile b)) =
      declared _ _ _ 11 Schema.users_me_path 1 Operations.update_own_profile_op refl refl refl refl
        refl refl refl (0, 200, refl, refl) refl
  request-Conforms (users (change_own_password b)) =
      declared _ _ _ 12 Schema.users_me_password_path 0 Operations.change_own_password_op refl refl
        refl refl refl refl refl (0, 204, refl, refl) refl
  request-Conforms (users get_own_listings_summary) =
      declared _ _ _ 10 Schema.users_me_listings_summary_path 0
        Operations.get_my_listings_summary_op refl refl refl refl refl refl tt (0, 200, refl, refl)
        refl
  request-Conforms (auth (register b)) =
      declared _ _ _ 1 Schema.auth_register_path 0 Operations.register_op refl refl refl refl refl
        refl refl (0, 201, refl, refl) refl
  request-Conforms (auth (login b)) =
      declared _ _ _ 2 Schema.auth_login_path 0 Operations.login_op refl refl refl refl refl refl
        refl (0, 200, refl, refl) refl
  request-Conforms (auth logout) =
      declared _ _ _ 4 Schema.auth_logout_path 0 Operations.logout_op refl refl refl refl refl refl
        tt (0, 204, refl, refl) refl
  request-Conforms (admin (list_users p)) =
      declared _ _ _ 13 Schema.admin_users_path 0 Operations.list_users_op refl refl refl refl refl
        refl tt (0, 200, refl, refl) refl
  request-Conforms (admin (suspend_user id code)) =
      declared _ _ _ 14 Schema.admin_users_user_id_suspend_path 0 Operations.suspend_user_op refl
        refl refl refl refl refl tt (0, 200, refl, refl) refl
  request-Conforms (admin (reinstate_user id)) =
      declared _ _ _ 15 Schema.admin_users_user_id_reinstate_path 0 Operations.reinstate_user_op
        refl refl refl refl refl refl tt (0, 200, refl, refl) refl
  request-Conforms (admin (reset_user_password id)) =
      declared _ _ _ 16 Schema.admin_users_user_id_reset_password_path 0
        Operations.reset_password_op refl refl refl refl refl refl tt (0, 200, refl, refl) refl
  request-Conforms (admin (list_admin_listings p s)) =
      declared _ _ _ 17 Schema.admin_listings_path 0 Operations.list_listings_op refl refl refl refl
        refl refl tt (0, 200, refl, refl) refl
  request-Conforms (admin (remove_listing id code)) =
      declared _ _ _ 18 Schema.admin_listings_listing_id_path 0 Operations.remove_listing_op refl
        refl refl refl refl refl tt (0, 204, refl, refl) refl
