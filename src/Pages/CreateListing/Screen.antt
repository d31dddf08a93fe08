-- ===== src/Pages/CreateListing/Screen.antt =====
-- What frontend/src/pages/CreateListingPage.tsx renders.
use punah_pustak.Common.{ℕ, String, Bool, true, false, List, [], ◌∷◌, ◌++◌, lookup, truthy_option}
use punah_pustak.Ui.View.{View, text, when}
use punah_pustak.Ui.Parts.{page_header, error_alert}
use punah_pustak.Ui.ListingForm.Screen.{Form, FormEvent, listing_form}
use punah_pustak.Ui.ImageUpload.Screen.{FileFacts, PhotoEvent, image_field}
use punah_pustak.Pages.CreateListing.{CreatePage, Phase, idle, creating, uploading}

-- `createMutation.isPending || uploadMutation.isPending`
unfoldable pub is_submitting : Phase → Bool
is_submitting idle = false
is_submitting (creating _) = true
is_submitting (uploading _) = true

module _ (facts : FileFacts) (url_text : ℕ → String) (cache : List (ℕ × ℕ)) where
  abbrev photo_part : CreatePage → View PhotoEvent
  photo_part page =
      image_field facts url_text cache 0 page.images (lookup "images" page.server_field_errors)
      ++ (when (truthy_option page.created_listing_id) (
            text
              "Your listing was saved. Fix the image issue below and submit again to finish adding photos, or come back to it later from My Listings."
            ∷ [])
          ++ error_alert page.form_error)

  unfoldable pub create_page : CreatePage → Form → View (FormEvent PhotoEvent)
  unfolding is_submitting
  create_page page form =
      page_header "List a copy"
        "A few details now, and it's live on Punah-Pustak for other readers to find."
      ++ listing_form form page.server_field_errors "Create listing" (is_submitting page.phase)
          (photo_part page)
