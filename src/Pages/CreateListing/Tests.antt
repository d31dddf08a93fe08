-- ===== src/Pages/CreateListing/Tests.antt =====
-- A visit in which the upload fails once and is tried again.
use punah_pustak.Common.{◌≤◌, ◌≡◌, List, [], ◌∷◌, refl}
use punah_pustak.Api.Errors.{other}
use punah_pustak.Auth.{value, threw}
use punah_pustak.Pages.CreateListing.{
  CreateEvent, images_change, submit, create_reply, upload_reply, initial, caught, start,
  handle_submit, created_reply, uploaded, step, run, upload_or_leave,
}
use punah_pustak.Pages.CreateListing.Once.{UploadsTo, creates_once}

abbrev retried : List CreateEvent
retried =
    images_change (7 ∷ [])
    ∷ submit
    ∷ create_reply (value "b1")
    ∷ upload_reply (threw other)
    ∷ submit
    ∷ upload_reply (value tt)
    ∷ []

navigates_once : (run initial retried).navigations ≡ "/listings/b1" ∷ []
unfolding initial run step handle_submit start created_reply uploaded caught upload_or_leave
navigates_once = refl

creates_once_example :
    ((run initial retried).created ≤ 1)
    × UploadsTo (run initial retried).created_listing_id (run initial retried).requests
creates_once_example = creates_once retried (tt, (tt, (refl, (tt, (tt, (tt, tt))))))
