-- ===== src/Pages/AdminListings/Screen.antt =====
-- What frontend/src/pages/admin/AdminListingsPage.tsx renders.
use punah_pustak.Common.{
  ℕ, String, Bool, true, false, not, Option, none, some, List, [], ◌∷◌, ◌++◌, is_some, truthy,
  if◌then◌else◌,
}
use punah_pustak.Api.Errors.{Thrown}
use punah_pustak.Js.{Numbers, trim, ◌⧺◌, slice_start}
use punah_pustak.Listings.{
  Listing, ListingImage, Status, available, sold, deleted, status_label, is_deleted,
}
use punah_pustak.Listings.Labels.{condition_meter}
use punah_pustak.Listings.Formats.{Dates, format_price}
use punah_pustak.Ui.View.{View, text, image, link, button, choice, field, map_events}
use punah_pustak.Ui.Parts.{
  loading_button, error_alert, page_header, admin_nav, modal, query_state, loading_message,
}
use punah_pustak.Ui.Pagination.{PageEvent, on_page_change, pagination}
use punah_pustak.Pages.AdminListings.{
  page_size, AdminListings, AdminListingsEvent, status_change, set_page, remove_open, remove_close,
  reason_change, remove_press,
}

-- How the query stands (`useAdminListings`): `result` is its `data`.
pub record ListingQuery : Type 0 where
  pub is_pending : Bool
  pub error : Option Thrown
  pub result : Option (List Listing × ℕ)

-- The `PhotoFrame` of a thumbnail, before the photo has failed to load.
abbrev pub render_thumb : List ListingImage → View AdminListingsEvent
render_thumb [] = text "No photo yet" ∷ []
render_thumb (i ∷ _) = image i.url "" ∷ []

abbrev pub render_title : (inline : Bool) → Listing → View AdminListingsEvent
render_title true l = link ("/listings/" ⧺ l.id) l.title ∷ text (" · " ⧺ l.author) ∷ []
render_title false l = link ("/listings/" ⧺ l.id) l.title ∷ text l.author ∷ []

unfoldable pub render_action : Listing → View AdminListingsEvent
render_action l =
    if is_deleted l.status then text "-" ∷ [] else button "Remove" false (remove_open l) ∷ []

module _ (js : Numbers) (dates : Dates) where
  abbrev pub listing_facts : (is_wide : Bool) → Listing → View AdminListingsEvent
  listing_facts true l =
      text l.seller_display_name
      ∷ text (format_price js l.price)
      ∷ text "Condition: "
      ∷ text (condition_meter l.condition).word
      ∷ text (status_label l.status)
      ∷ text (dates.format_day l.created_at)
      ∷ text (slice_start 8 l.id)
      ∷ render_action l
  listing_facts false l =
      text "Seller"
      ∷ text l.seller_display_name
      ∷ text "Price"
      ∷ text (format_price js l.price)
      ∷ text "Status"
      ∷ text (status_label l.status)
      ∷ text "Listed"
      ∷ text (dates.format_day l.created_at ⧺ " · " ⧺ slice_start 8 l.id)
      ∷ render_action l

  unfoldable pub listing_row : (is_wide : Bool) → Listing → View AdminListingsEvent
  listing_row is_wide l =
      render_thumb l.images ++ (render_title is_wide l ++ listing_facts is_wide l)

  abbrev pub listing_rows : Bool → List Listing → View AdminListingsEvent
  listing_rows is_wide [] = []
  listing_rows is_wide (l ∷ ls) = listing_row is_wide l ++ listing_rows is_wide ls

abbrev pub same_filter : Option Status → Option Status → Bool
same_filter none none = true
same_filter (some available) (some available) = true
same_filter (some sold) (some sold) = true
same_filter (some deleted) (some deleted) = true
same_filter _ _ = false

-- The `SegmentedFilter` over `STATUS_FILTER_OPTIONS`.
unfoldable pub status_filter : Option Status → View AdminListingsEvent
status_filter current =
    choice "All" (same_filter current none) (status_change none)
    ∷ choice (status_label available) (same_filter current (some available))
        (status_change (some available))
    ∷ choice (status_label sold) (same_filter current (some sold)) (status_change (some sold))
    ∷ choice (status_label deleted) (same_filter current (some deleted))
        (status_change (some deleted))
    ∷ []

abbrev headings : Bool → View AdminListingsEvent
headings true =
    text "Photo"
    ∷ text "Copy"
    ∷ text "Seller"
    ∷ text "Price"
    ∷ text "Condition"
    ∷ text "Status"
    ∷ text "Listed"
    ∷ text "ID"
    ∷ text "Action"
    ∷ []
headings false = []

abbrev title_of : Option Listing → String
title_of none = ""
title_of (some l) = l.title

unfoldable pub remove_modal : AdminListings → View AdminListingsEvent
unfolding modal
remove_modal s =
    modal (is_some s.remove_target) remove_close ("Remove \"" ⧺ title_of s.remove_target ⧺ "\"?") (
      text
        "It will no longer appear in public browse or search. The reason code is recorded in the audit log (FR-042)."
      ∷ field "Reason code" s.reason_code none reason_change
      ∷ (error_alert s.action_error
          ++ (button "Cancel" false remove_close
              ∷ loading_button "Remove" (not (truthy (trim s.reason_code))) s.is_removing
                  remove_press
              ∷ [])))

abbrev on_page : PageEvent → AdminListingsEvent
on_page (on_page_change n) = set_page n

abbrev items_of : Option (List Listing × ℕ) → List Listing
items_of none = []
items_of (some d) = d.0

abbrev page_links : AdminListings → Option (List Listing × ℕ) → View AdminListingsEvent
page_links s none = []
page_links s (some d) = map_events on_page (pagination s.page page_size d.1)

unfoldable pub admin_listings_page :
    Numbers → Dates → (is_wide : Bool) → ListingQuery → AdminListings → View AdminListingsEvent
unfolding query_state remove_modal pagination listing_row status_filter
admin_listings_page js dates is_wide query s =
    page_header "Moderation"
      "Every listing, in every status. Each removal is written to the audit log with its reason code."
    ++ (admin_nav
        ++ (status_filter s.status
            ++ (query_state query.is_pending query.error false loading_message [] (
                  headings is_wide
                  ++ (listing_rows js dates is_wide (items_of query.result)
                      ++ page_links s query.result))
                ++ remove_modal s)))
