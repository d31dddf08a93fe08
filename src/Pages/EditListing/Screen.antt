-- ===== src/Pages/EditListing/Screen.antt =====
-- What frontend/src/pages/EditListingPage.tsx renders.
use punah_pustak.Common.{
  ℕ, String, Bool, true, false, Option, none, some, List, [], ◌∷◌, ◌++◌, length, lookup,
}
use punah_pustak.Api.Errors.{Thrown}
use punah_pustak.Auth.{AuthState}
use punah_pustak.Js.{Numbers, ◌⧺◌}
use punah_pustak.Listings.{
  Listing, Status, available, sold, deleted, is_available, category_value, condition_value,
}
use punah_pustak.Ui.View.{View, text, alert, link}
use punah_pustak.Ui.Parts.{query_state, page_header, loading_message, error_alert}
use punah_pustak.Ui.ListingForm.{ListingFormValues}
use punah_pustak.Ui.ListingForm.Screen.{Form, FormEvent, listing_form}
use punah_pustak.Ui.ImageUpload.Screen.{FileFacts, PhotoEvent, image_field}
use punah_pustak.Pages.ListingDetail.{is_owner}
use punah_pustak.Pages.EditListing.{EditPage, Phase, idle, updating, uploading}

-- The `initialValues` of the form.
unfoldable pub initial_values : Listing → ListingFormValues
initial_values l = record {
  title = l.title;
  author = l.author;
  description = l.description;
  category = category_value l.category;
  condition = condition_value l.condition;
  price = l.price;
}

abbrev status_word : Status → String
status_word available = "available"
status_word sold = "sold"
status_word deleted = "deleted"

-- `updateMutation.isPending || uploadMutation.isPending`
unfoldable pub is_submitting : Phase → Bool
is_submitting idle = false
is_submitting (updating _) = true
is_submitting uploading = true

abbrev pub not_permitted : View (FormEvent PhotoEvent)
not_permitted = alert "You don't have permission to edit this listing." ∷ []

abbrev pub not_editable : Listing → View (FormEvent PhotoEvent)
not_editable l =
    text ("This listing is " ⧺ status_word l.status ⧺ " and can no longer be edited.")
    ∷ link ("/listings/" ⧺ l.id) "Back to listing"
    ∷ []

module _ (js : Numbers) (facts : FileFacts) (url_text : ℕ → String) (cache : List (ℕ × ℕ))
    (page : EditPage js) (form : Form) where
  abbrev pub photo_part : Listing → View PhotoEvent
  photo_part l =
      image_field facts url_text cache (length l.images) page.images
        (lookup "images" page.server_field_errors)
      ++ error_alert page.form_error

  abbrev pub edit_form : Listing → View (FormEvent PhotoEvent)
  edit_form l =
      page_header "Edit listing" "Keep your listing accurate and up to date."
      ++ listing_form form page.server_field_errors "Save changes" (is_submitting page.phase)
          (photo_part l)

  -- For whether the visitor is the owner, and whether the listing is available.
  abbrev pub contents : (owns is_open : Bool) → Listing → View (FormEvent PhotoEvent)
  contents false is_open l = not_permitted
  contents true false l = not_editable l
  contents true true l = edit_form l

  abbrev pub loaded : AuthState → Option Listing → View (FormEvent PhotoEvent)
  loaded auth none = []
  loaded auth (some l) = contents (is_owner auth l) (is_available l.status) l

  -- `isPending`, `error` and `data` of `useListing`.
  unfoldable pub edit_page :
      Bool → Option Thrown → AuthState → Option Listing → View (FormEvent PhotoEvent)
  unfolding query_state
  edit_page is_pending error auth result =
      query_state is_pending error false loading_message [] (loaded auth result)
