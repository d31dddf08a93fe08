-- ===== src/Pages/EditListing/Tests.antt =====
-- The edit page of a listing with a description, seen by its owner.
use punah_pustak.Common.{
  ◌+◌, ◌==◌, String, false, none, some, List, [], ◌∷◌, ◌≡◌, ◌↔◌, refl, inl, inr, length, All,
}
use punah_pustak.Js.{Numbers, trim}
use punah_pustak.Api.Errors.{raised}
use punah_pustak.Auth.{AuthState, authenticated, user, value, threw}
use punah_pustak.Listings.{Listing, available, fiction, good}
use punah_pustak.Listings.Samples.{book}
use punah_pustak.Ui.View.{Offers}
use punah_pustak.Ui.ListingForm
use punah_pustak.Ui.ListingForm.{title, client_errors, submission, set}
use punah_pustak.Ui.ListingForm.Screen.{Form, FormEvent, change, mounted, update, listing_form}
use punah_pustak.Ui.ListingForm.Enums.{
  Reaches, mounts, acts, IsCategory, IsCondition, submits_enums,
}
use punah_pustak.Ui.ImageUpload.Screen.{FileFacts, PhotoEvent}
use punah_pustak.Pages.ListingDetail.{edit_press}
use punah_pustak.Pages.ListingDetail.Screen.{actions}
use punah_pustak.Pages.EditListing.{
  EditEvent, images_change, submit, update_reply, upload_reply, initial, run,
}
use punah_pustak.Pages.EditListing.Screen.{initial_values, edit_page}
use punah_pustak.Pages.EditListing.Outcomes.{
  in_flight, accepted_update, failed_upload, total, saves_accounted,
}
use punah_pustak.Pages.EditListing.Guards.{edit_offered_iff_form}

-- Texts for numbers, of which "x" is not one and "0" is not positive.
abbrev texts : Numbers
texts = record {
  Number = String;
  number = λ s. s;
  parse_float = λ s. s;
  is_nan = λ s. s == "x";
  at_most_zero = λ s. s == "0";
  to_fixed_2 = λ s. s;
}

abbrev described : Listing
described = record (book available) { description = "Read once." }

abbrev owner : AuthState
owner =
    authenticated
      (record { id = "u1"; email = "a@x.in"; display_name = "Asha"; role = user; created_at = "" })

abbrev facts : FileFacts
facts = record { name = λ _. "front.jpg"; size = λ _. 1000 }

abbrev start : Form
start = mounted (initial_values described)

-- The owner types a new title.
abbrev retitled : Form
retitled = update {E = PhotoEvent} texts start (change title "Dune Messiah")

retitled-Reached : Reaches PhotoEvent texts (initial_values described) retitled
retitled-Reached =
    acts start [] "Save changes" false [] (change title "Dune Messiah") mounts
      (unfold listing_form in inr (inr (inl ("Dune Messiah", refl))))

its_submission :
    (punah_pustak.Ui.ListingForm.handle_submit texts retitled.values).1
    ≡ some (submission texts retitled.values)
unfolding punah_pustak.Ui.ListingForm.handle_submit client_errors trim update set initial_values
its_submission = refl

submits_enums_example :
    IsCategory (submission texts retitled.values).category
    × IsCondition (submission texts retitled.values).condition
submits_enums_example =
    submits_enums texts (initial_values described) retitled (submission texts retitled.values)
      (unfold initial_values in (inr (fiction, refl), inr (good, refl))) retitled-Reached
      its_submission

abbrev one_save : List (EditEvent texts)
one_save =
    images_change (1 ∷ [])
    ∷ submit (submission texts retitled.values)
    ∷ update_reply (value tt)
    ∷ upload_reply (threw (raised "Failed to fetch"))
    ∷ []

saves_accounted_example :
    let s = run texts "l1" (initial texts) one_save in
    All (λ n. n ≡ "/listings/l1") s.navigations
    × (total texts "l1" accepted_update (initial texts) one_save
        ≡ length s.navigations
          + total texts "l1" failed_upload (initial texts) one_save
          + in_flight s.phase)
saves_accounted_example = saves_accounted texts "l1" one_save

edit_offered_iff_form_example :
    Offers (edit_press "l1") (actions owner described)
    ↔ Offers punah_pustak.Ui.ListingForm.Screen.submit (
        edit_page texts facts
          (λ _. "blob:")
          []
          (initial texts)
          start
          false
          none
          owner
          (some described))
unfolding initial
edit_offered_iff_form_example =
    edit_offered_iff_form texts facts (λ _. "blob:") [] (initial texts) start owner described refl
