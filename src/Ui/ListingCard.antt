-- ===== src/Ui/ListingCard.antt =====
-- frontend/src/components/ListingCard.tsx: a listing in a grid. `photo` is the state of its frame.
use punah_pustak.Common.{
  String, Bool, true, false, not, ◌&&◌, ◌||◌, ltb, Option, none, some, List, [], ◌∷◌, ◌++◌, length,
}
use punah_pustak.Js.{Numbers, trim, ◌⧺◌}
use punah_pustak.Listings.{Listing, ListingImage, status_label, is_available}
use punah_pustak.Listings.Labels.{condition_meter}
use punah_pustak.Listings.Formats.{format_price, is_substantive_note}
use punah_pustak.Ui.View.{View, heading, text, counts, link, when}
use punah_pustak.Ui.PhotoFrame.{Frame, grid, photo_frame}

pub record CardOptions : Type 0 where
  pub show_status : Bool
  pub show_seller : Bool
  pub show_note : Bool

-- The defaults of the props.
abbrev pub default_options : CardOptions
default_options = record { show_status = false; show_seller = true; show_note = true }

abbrev pub first_photo : (alt : String) → List ListingImage → Option (String × String)
first_photo alt [] = none
first_photo alt (i ∷ _) = some (i.url, alt)

abbrev pub has_photo : List ListingImage → Bool
has_photo [] = false
has_photo (_ ∷ _) = true

module _ {E : Type 0} where
  abbrev pub seller_line : Bool → Listing → View E
  seller_line show_seller l = when (show_seller || ltb 1 (length l.images)) (
      when show_seller (text ("from " ⧺ l.seller_display_name) ∷ [])
      ++ when (ltb 1 (length l.images)) (counts "{} photos" (length l.images ∷ []) ∷ []))

  abbrev pub card_facts : Numbers → Listing → View E
  card_facts js l =
      heading l.title
      ∷ text l.author
      ∷ text (format_price js l.price)
      ∷ text "Condition: "
      ∷ text (condition_meter l.condition).word
      ∷ []

  abbrev pub missing_photo : Listing → View E
  missing_photo l = when (not (has_photo l.images)) (text ", no photo yet" ∷ [])

  abbrev pub note_and_status : CardOptions → Listing → View E
  note_and_status o l =
      when (o.show_note && is_substantive_note (trim l.description))
        (text (trim l.description) ∷ [])
      ++ when (o.show_status && not (is_available l.status)) (text (status_label l.status) ∷ [])

  abbrev pub card_photo : Frame → Listing → View E
  card_photo photo l =
      photo_frame photo grid false (first_photo (l.title ⧺ " by " ⧺ l.author) l.images)

  -- The link is around all of it.
  unfoldable pub listing_card : Numbers → CardOptions → Frame → Listing → View E
  listing_card js o photo l =
      link ("/listings/" ⧺ l.id) l.title
      ∷ (card_photo photo l
          ++ (card_facts js l
              ++ (missing_photo l ++ (seller_line o.show_seller l ++ note_and_status o l))))
