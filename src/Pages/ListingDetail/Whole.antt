-- ===== src/Pages/ListingDetail/Whole.antt =====
-- All that frontend/src/pages/ListingDetailPage.tsx renders. `others` are the listing's `seller_other_listings`, empty
-- where there are none. `none` stands for a render that throws.
use punah_pustak.Common.{
  ◌===◌, String, Bool, true, false, Option, none, some, List, [], ◌∷◌, ◌++◌, length, if◌then◌else◌,
  is_some, All, ◌≡◌, refl,
}
use punah_pustak.Api.Errors.{Thrown}
use punah_pustak.Auth.{AuthState}
use punah_pustak.Js.{Numbers, ◌⧺◌}
use punah_pustak.Listings.{Listing}
use punah_pustak.Listings.Formats.{Dates}
use punah_pustak.Ui.FormErrors.{get_error_message}
use punah_pustak.Ui.View.{View, heading, counts, alert, status, map_events}
use punah_pustak.Ui.PhotoFrame.{Frame}
use punah_pustak.Ui.ListingCard.{CardOptions, listing_card}
use punah_pustak.Pages.ListingDetail.{Detail, DetailEvent}
use punah_pustak.Pages.ListingDetail.Screen.{record_column, sold_modal, delete_modal}
use punah_pustak.Pages.ListingDetail.Photos
use punah_pustak.Pages.ListingDetail.Photos.{Photos, PhotoEvent, photos}
use punah_pustak.Pages.ListingDetail.Photos.Bounds.{InPhotos, photos_never_throw}

pub data WholeEvent : Type 0 where
  of_page : DetailEvent → WholeEvent
  of_photos : PhotoEvent → WholeEvent

abbrev rail_options : CardOptions
rail_options = record { show_status = false; show_seller = false; show_note = false }

module _ (js : Numbers) (photo : String → Frame) where
  abbrev rail : List Listing → View WholeEvent
  rail [] = []
  rail (l ∷ ls) = listing_card js rail_options (photo l.id) l ++ rail ls

  unfoldable pub more_from : Listing → List Listing → View WholeEvent
  more_from l [] = []
  more_from l (o ∷ os) =
      heading ("More from " ⧺ l.seller_display_name)
      ∷ counts (if length (o ∷ os) === 1 then "{} other copy" else "{} other copies")
          (length (o ∷ os) ∷ [])
      ∷ rail (o ∷ os)

  -- The children of `QueryState`, once `Photos` has rendered.
  abbrev pub around_photos :
      Dates
      → AuthState
      → Detail
      → Listing
      → List Listing
      → Option (View PhotoEvent)
      → Option (View WholeEvent)
  around_photos dates auth s l others none = none
  around_photos dates auth s l others (some v) = some (
      map_events of_photos v
      ++ (map_events of_page (record_column js dates auth l)
          ++ (more_from l others ++ map_events of_page (sold_modal s ++ delete_modal s))))

  abbrev loaded :
      Dates
      → AuthState
      → (is_wide : Bool) → Detail
      → Photos
      → Option (Listing × List Listing)
      → Option (View WholeEvent)
  loaded dates auth is_wide s p none = some (map_events of_page (sold_modal s ++ delete_modal s))
  loaded dates auth is_wide s p (some (l, others)) =
      around_photos dates auth s l others (photos is_wide l p)

  -- `isPending`, `error` and `data` of `useListing`.
  unfoldable pub listing_page :
      Dates
      → AuthState
      → (is_wide is_pending : Bool) → Option Thrown
      → Detail
      → Photos
      → Option (Listing × List Listing)
      → Option (View WholeEvent)
  unfolding more_from
  listing_page dates auth is_wide true error s p result = some (status "Loading" ∷ [])
  listing_page dates auth is_wide false (some t) s p result =
      some (alert (get_error_message t) ∷ [])
  listing_page dates auth is_wide false none s p result = loaded dates auth is_wide s p result

  around_photos-is_some :
      (dates : Dates) (auth : AuthState) (s : Detail) (l : Listing) (others : List Listing)
      → (v : Option (View PhotoEvent)) → is_some v ≡ true
      → is_some (around_photos dates auth s l others v) ≡ true
  around_photos-is_some dates auth s l others none h = h
  around_photos-is_some dates auth s l others (some v) h = refl

  -- As long as the photos of the listing stay the same, rendering the page of a listing does not throw after any events
  -- in its photos whose indices are those of photos, on a wide screen or on a phone: the photos that the stage and the
  -- lightbox take for granted are there.
  pub page_never_throws :
      (dates : Dates) (auth : AuthState) (is_wide is_pending : Bool) (error : Option Thrown)
      (s : Detail)
      → (l : Listing) (others : List Listing) (es : List PhotoEvent)
      → All (InPhotos (length l.images)) es
      → is_some (
          listing_page dates auth is_wide is_pending error s
            (punah_pustak.Pages.ListingDetail.Photos.run
              (length l.images)
              punah_pustak.Pages.ListingDetail.Photos.initial
              es)
            (some (l, others)))
        ≡ true
  unfolding listing_page
  page_never_throws dates auth is_wide true error s l others es h = refl
  page_never_throws dates auth is_wide false (some t) s l others es h = refl
  page_never_throws dates auth is_wide false none s l others es h =
      around_photos-is_some dates auth s l others _ (photos_never_throw is_wide l es h)
