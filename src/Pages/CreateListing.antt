-- ===== src/Pages/CreateListing.antt =====
-- frontend/src/pages/CreateListingPage.tsx: create a listing, then upload its photos, with a retry
-- that uploads only. `handleSubmit` is cut at its two `await`s (`Phase`); the submit button is
-- disabled while one is pending, so a submission outside `idle` is ignored.
pub mod Once
pub mod Screen
mod Tests
use punah_pustak.Common.{
  ℕ, suc, String, Bool, true, false, Option, none, some, List, [], ◌∷◌, Dict, truthy_option,
  if◌then◌else◌,
}
use punah_pustak.Js.{◌⧺◌}
use punah_pustak.Api.Errors.{Thrown}
use punah_pustak.Auth.{Reply, value, threw}
use punah_pustak.Ui.FormErrors.{to_form_errors}

-- The awaited mutation, with what the handler's closure still needs.
pub data Phase : Type 0 where
  idle : Phase
  creating : List ℕ → Phase
  uploading : String → Phase

-- What has been sent to the server.
pub data Request : Type 0 where
  create_request : Request
  upload_request : String → List ℕ → Request

-- `requests` and `navigations` are newest first; `created` counts the listings that the server
-- made.
pub record CreatePage : Type 0 where
  pub phase : Phase
  pub images : List ℕ
  pub created_listing_id : Option String
  pub form_error : Option String
  pub server_field_errors : Dict String
  pub requests : List Request
  pub navigations : List String
  pub created : ℕ

pub data CreateEvent : Type 0 where
  images_change : List ℕ → CreateEvent
  -- the form calls `onSubmit` with valid values
  submit : CreateEvent
  -- `createMutation` settles, with the id of the listing
  create_reply : Reply String → CreateEvent
  upload_reply : Reply (Unit {0}) → CreateEvent

unfoldable pub initial : CreatePage
initial = record {
  phase = idle;
  images = [];
  created_listing_id = none;
  form_error = none;
  server_field_errors = [];
  requests = [];
  navigations = [];
  created = 0;
}

abbrev pub listing_path : String → String
listing_path id = "/listings/" ⧺ id

-- `if (images.length > 0) await upload…; navigate(…)`
unfoldable pub upload_or_leave : String → List ℕ → CreatePage → CreatePage
upload_or_leave id [] s = record s { phase = idle; navigations = listing_path id ∷ s.navigations }
upload_or_leave id (f ∷ fs) s = record s {
  phase = uploading id;
  requests = upload_request id (f ∷ fs) ∷ s.requests;
}

-- The `catch`.
unfoldable pub caught : Thrown → CreatePage → CreatePage
caught t s = record s {
  phase = idle;
  server_field_errors = (to_form_errors t).fields;
  form_error = (to_form_errors t).form_message;
}

-- `if (!listingId)`: a saved id is used unless it is empty.
unfoldable pub start : Option String → CreatePage → CreatePage
unfolding upload_or_leave
start none s = record s { phase = creating s.images; requests = create_request ∷ s.requests }
start (some id) s =
    if truthy_option (some id)
    then upload_or_leave id s.images s
    else record s { phase = creating s.images; requests = create_request ∷ s.requests }

unfoldable pub handle_submit : Phase → CreatePage → CreatePage
unfolding start
handle_submit idle s =
    start s.created_listing_id (record s { form_error = none; server_field_errors = [] })
handle_submit _ s = s

unfoldable pub created_reply : Phase → Reply String → CreatePage → CreatePage
unfolding upload_or_leave caught
created_reply (creating files) (value id) s =
    upload_or_leave id files (record s { created_listing_id = some id; created = suc s.created })
created_reply (creating files) (threw t) s = caught t s
created_reply _ _ s = s

unfoldable pub uploaded : Phase → Reply (Unit {0}) → CreatePage → CreatePage
unfolding caught
uploaded (uploading id) (value _) s = record s {
  phase = idle;
  navigations = listing_path id ∷ s.navigations;
}
uploaded (uploading id) (threw t) s = caught t s
uploaded _ _ s = s

unfoldable pub step : CreatePage → CreateEvent → CreatePage
unfolding handle_submit created_reply uploaded
step s (images_change files) = record s { images = files }
step s submit = handle_submit s.phase s
step s (create_reply r) = created_reply s.phase r s
step s (upload_reply r) = uploaded s.phase r s

unfoldable pub run : CreatePage → List CreateEvent → CreatePage
run s [] = s
run s (e ∷ es) = run (step s e) es
