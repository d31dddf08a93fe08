-- ===== src/Pages/EditListing/Guards.antt =====
-- Who gets the form of the edit page.
use punah_pustak.Common.{
  ℕ, String, Bool, true, false, ◌&&◌, ◌≡◌, ◌↔◌, inl, inr, refl, arith, none, some, List, ◌++◌,
}
use punah_pustak.Auth.{AuthState}
use punah_pustak.Js.{Numbers}
use punah_pustak.Listings.{Listing, is_available}
use punah_pustak.Ui.View.{Offers, Offers-append, map_events}
use punah_pustak.Ui.Parts.{page_header}
use punah_pustak.Ui.ListingForm.Screen.{
  Form, FormEvent, submit, inner, listing_form, book_details, details_section, photo_section,
}
use punah_pustak.Ui.ImageUpload.Screen.{FileFacts, PhotoEvent}
use punah_pustak.Pages.ListingDetail.{is_owner, can_edit, edit_press}
use punah_pustak.Pages.ListingDetail.Screen.{actions}
use punah_pustak.Pages.ListingDetail.Owner.{actions-Permitted, can_edit-Owns}
use punah_pustak.Pages.EditListing.{EditPage, idle}
use punah_pustak.Pages.EditListing.Screen.{is_submitting, contents, edit_page, photo_part}

module _ (js : Numbers) (facts : FileFacts) (url_text : ℕ → String) (cache : List (ℕ × ℕ))
    (page : EditPage js) (form : Form) where
  -- What is offered at all is offered to the owner of an available listing.
  contents_guard :
      (e : FormEvent PhotoEvent) (owns is_open : Bool) (l : Listing)
      → Offers e (contents js facts url_text cache page form owns is_open l)
      → (owns ≡ true) × (is_open ≡ true)
  contents_guard e true true l o = (refl, refl)
  contents_guard e true false l o = ground arith
  contents_guard e false is_open l o = ground arith

  form_has_submit :
      (l : Listing)
      → page.phase ≡ idle
      → Offers submit (contents js facts url_text cache page form true true l)
  unfolding listing_form is_submitting
  form_has_submit l h =
      let errors = page.server_field_errors in
      let photos = photo_part js facts url_text cache page form l in
      let last = photo_section form errors "Save changes" (is_submitting page.phase) photos in
      inr (
        inr (
          Offers-append submit (book_details form errors) (details_section form errors ++ last) (
            Offers-append submit (details_section form errors) last (
              inr
                (inr (Offers-append submit (map_events inner photos) _ (inl (rw h refl, refl))))))))

  permitted_has_submit :
      (owns is_open : Bool) (l : Listing)
      → page.phase ≡ idle
      → owns && is_open ≡ true
      → Offers submit (contents js facts url_text cache page form owns is_open l)
  permitted_has_submit true true l h k = form_has_submit l h
  permitted_has_submit true false l h k = ground arith
  permitted_has_submit false is_open l h k = ground arith

  -- Once the listing is loaded and no save is pending, the edit page lets a visitor submit its form exactly where the
  -- page of the same listing offers that visitor the button "Edit".
  pub edit_offered_iff_form :
      (auth : AuthState) (l : Listing)
      → page.phase ≡ idle
      → Offers (edit_press l.id) (actions auth l)
        ↔ Offers submit (edit_page js facts url_text cache page form false none auth (some l))
  unfolding edit_page punah_pustak.Ui.Parts.query_state can_edit
  edit_offered_iff_form auth l h = (
    λ o. permitted_has_submit (is_owner auth l) (is_available l.status) l h (
        let p = (actions-Permitted auth l (edit_press l.id)).0 o in
        (can_edit-Owns auth l).1 (p.0, p.1)),
    λ o.
        let g = contents_guard submit (is_owner auth l) (is_available l.status) l o in
        let p = (can_edit-Owns auth l).0 (rw (g.0, g.1) refl) in
        (actions-Permitted auth l (edit_press l.id)).1 (p.0, p.1, refl),
  )
