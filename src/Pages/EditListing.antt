-- ===== src/Pages/EditListing.antt =====
-- frontend/src/pages/EditListingPage.tsx: change the record of a listing, then add photos. `handleSubmit` is cut at its
-- two `await`s (`Phase`); the submit button is disabled while one is pending, so a submission outside `idle` is ignored.
-- `id` is the parameter of the route, which is not empty.
pub mod Outcomes
pub mod Screen
pub mod Guards
mod Tests
use punah_pustak.Common.{ℕ, String, Option, none, some, List, [], ◌∷◌, Dict}
use punah_pustak.Js.{Numbers, ◌⧺◌}
use punah_pustak.Api.Errors.{Thrown}
use punah_pustak.Auth.{Reply, value, threw}
use punah_pustak.Ui.FormErrors.{to_form_errors}
use punah_pustak.Ui.ListingForm.{Submission}

-- The awaited mutation, with the images of the render whose handler runs.
pub data Phase : Type 0 where
  idle : Phase
  updating : List ℕ → Phase
  uploading : Phase

pub data Request (js : Numbers) : Type 0 where
  update_request : Submission js → Request js
  upload_request : List ℕ → Request js

-- `requests` and `navigations` are newest first.
pub record EditPage (js : Numbers) : Type 0 where
  pub phase : Phase
  pub images : List ℕ
  pub form_error : Option String
  pub server_field_errors : Dict String
  pub requests : List (Request js)
  pub navigations : List String

pub data EditEvent (js : Numbers) : Type 0 where
  images_change : List ℕ → EditEvent js
  -- the form calls `onSubmit`
  submit : Submission js → EditEvent js
  update_reply : Reply (Unit {0}) → EditEvent js
  upload_reply : Reply (Unit {0}) → EditEvent js

module _ (js : Numbers) where
  unfoldable pub initial : EditPage js
  initial = record {
    phase = idle;
    images = [];
    form_error = none;
    server_field_errors = [];
    requests = [];
    navigations = [];
  }

  module _ (id : String) where
    abbrev pub leave : EditPage js → EditPage js
    leave s = record s { phase = idle; navigations = ("/listings/" ⧺ id) ∷ s.navigations }

    -- The `catch`.
    unfoldable pub caught : Thrown → EditPage js → EditPage js
    caught t s = record s {
      phase = idle;
      server_field_errors = (to_form_errors t).fields;
      form_error = (to_form_errors t).form_message;
    }

    unfoldable pub handle_submit : Phase → Submission js → EditPage js → EditPage js
    handle_submit idle values s = record s {
      phase = updating s.images;
      form_error = none;
      server_field_errors = [];
      requests = update_request values ∷ s.requests;
    }
    handle_submit _ values s = s

    -- `if (images.length > 0 && id) await upload…; navigate(…)`
    unfoldable pub upload_or_leave : List ℕ → EditPage js → EditPage js
    upload_or_leave [] s = leave s
    upload_or_leave (f ∷ fs) s = record s {
      phase = uploading;
      requests = upload_request (f ∷ fs) ∷ s.requests;
    }

    unfoldable pub updated : Phase → Reply (Unit {0}) → EditPage js → EditPage js
    unfolding upload_or_leave caught
    updated (updating files) (value _) s = upload_or_leave files s
    updated (updating files) (threw t) s = caught t s
    updated _ _ s = s

    unfoldable pub uploaded : Phase → Reply (Unit {0}) → EditPage js → EditPage js
    unfolding caught
    uploaded uploading (value _) s = leave s
    uploaded uploading (threw t) s = caught t s
    uploaded _ _ s = s

    unfoldable pub step : EditPage js → EditEvent js → EditPage js
    unfolding handle_submit updated uploaded
    step s (images_change files) = record s { images = files }
    step s (submit values) = handle_submit s.phase values s
    step s (update_reply r) = updated s.phase r s
    step s (upload_reply r) = uploaded s.phase r s

    unfoldable pub run : EditPage js → List (EditEvent js) → EditPage js
    run s [] = s
    run s (e ∷ es) = run (step s e) es
