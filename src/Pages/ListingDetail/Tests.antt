-- ===== src/Pages/ListingDetail/Tests.antt =====
-- A listing with three photos, seen by its owner.
use punah_pustak.Common.{
  ◌==◌, some, ◌↔◌, String, true, false, none, List, [], ◌∷◌, ◌≡◌, length, is_some, arith,
}
use punah_pustak.Auth.{AuthState, authenticated, user}
use punah_pustak.Listings.{Listing, ListingImage, available, fiction, good}
use punah_pustak.Ui.View.{View, Offers}
use punah_pustak.Pages.ListingDetail.{
  Detail, DetailEvent, sold_open, sold_reply, delete_open, delete_press, delete_close, delete_reply,
  is_owner, can_edit,
}
use punah_pustak.Pages.ListingDetail.Screen.{actions}
use punah_pustak.Pages.ListingDetail.Owner.{Permitted, actions-Permitted}
use punah_pustak.Pages.ListingDetail.Photos.{
  PhotoEvent, select, enlarge, next, previous, key, arrow_right, swipe_strip, stage_view,
  previous_index, next_index,
}
use punah_pustak.Js.{Numbers}
use punah_pustak.Listings.Formats.{Dates}
use punah_pustak.Ui.PhotoFrame
use punah_pustak.Pages.ListingDetail.Whole.{listing_page, page_never_throws}

abbrev photo_of : String → ListingImage
photo_of id = record { id = id; url = id; position = 0 }

abbrev book : Listing
book = record {
  id = "l1";
  owner_id = "u1";
  title = "Dune";
  author = "Herbert";
  description = "";
  category = fiction;
  condition = good;
  price = "5";
  status = available;
  images = photo_of "a" ∷ photo_of "b" ∷ photo_of "c" ∷ [];
  seller_display_name = "Asha";
  seller_member_since = none;
  seller_active_listings_count = none;
  created_at = "2026-01-01";
  updated_at = "2026-01-01";
  sold_at = none;
}

abbrev owner : AuthState
owner =
    authenticated
      (record { id = "u1"; email = "a@x.in"; display_name = "Asha"; role = user; created_at = "" })

actions-Permitted_example : Offers sold_open (actions owner book) ↔ Permitted owner book sold_open
actions-Permitted_example = actions-Permitted owner book sold_open

abbrev deleting : Detail
deleting = record {
  confirming_sold = false;
  confirming_delete = true;
  action_error = none;
  is_marking = false;
  is_deleting = true;
  requests = [];
  navigations = [];
}

abbrev looks_around : List PhotoEvent
looks_around = select 2 ∷ enlarge 2 ∷ next ∷ previous ∷ key arrow_right ∷ []

abbrev texts : Numbers
texts = record {
  Number = String;
  number = λ s. s;
  parse_float = λ s. s;
  is_nan = λ s. s == "x";
  at_most_zero = λ s. s == "0";
  to_fixed_2 = λ s. s;
}

abbrev dates : Dates
dates = record { format_day = λ s. s; format_month = λ s. s }

page_never_throws_example :
    is_some (
      listing_page texts
        (λ _. punah_pustak.Ui.PhotoFrame.initial)
        dates
        owner
        true
        false
        none
        deleting
        (punah_pustak.Pages.ListingDetail.Photos.run
          (length book.images)
          punah_pustak.Pages.ListingDetail.Photos.initial
          looks_around)
        (some (book, book ∷ [])))
    ≡ true
page_never_throws_example =
    page_never_throws texts (λ _. punah_pustak.Ui.PhotoFrame.initial) dates owner true false none
      deleting book (book ∷ []) looks_around (omega arith, (omega arith, (tt, (tt, (tt, tt)))))

abbrev first_photos : punah_pustak.Pages.ListingDetail.Photos.Photos
first_photos = record { active = 0; lightbox_index = none; current = 0 }

abbrev all_views : View PhotoEvent
all_views = stage_view book (record first_photos { active = 2 }) (photo_of "c")

abbrev third_selected : punah_pustak.Pages.ListingDetail.Photos.Photos
third_selected = record { active = 2; lightbox_index = none; current = 0 }
