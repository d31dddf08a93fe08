-- ===== src/Pages/MyListings.antt =====
-- frontend/src/pages/MyListingsPage.tsx: a seller's own listings, narrowed by status. The column
-- headings, which are hidden from assistive technology, are left out of the view.
pub mod Ledger
mod Tests
use punah_pustak.Common.{
  ℕ, String, Bool, true, false, ◌&&◌, not, Option, none, some, List, [], ◌∷◌, ◌++◌, length, select,
  if◌then◌else◌, truthy_option, or_else, truthy,
}
use punah_pustak.Api.Errors.{Thrown}
use punah_pustak.Js.{Numbers, ◌⧺◌}
use punah_pustak.Listings.{
  Listing, ListingImage, Status, available, sold, deleted, status_label, is_available, is_sold,
  is_deleted,
}
use punah_pustak.Listings.Labels.{condition_meter}
use punah_pustak.Listings.Formats.{Dates, format_price}
use punah_pustak.Ui.View.{View, Item, heading, text, counts, image, link, choice, status, when}
use punah_pustak.Ui.Parts.{query_state, page_header}

-- `"all"`, or a status.
pub data StatusFilter : Type 0 where
  all : StatusFilter
  only : Status → StatusFilter

pub data LedgerEvent : Type 0 where
  set_filter : StatusFilter → LedgerEvent

abbrev pub has_status : Status → Listing → Bool
has_status available l = is_available l.status
has_status sold l = is_sold l.status
has_status deleted l = is_deleted l.status

-- `counts[filter]`
unfoldable pub count_of : List Listing → StatusFilter → ℕ
count_of ls all = length ls
count_of ls (only s) = length (select (has_status s) ls)

unfoldable pub visible : List Listing → StatusFilter → List Listing
visible ls all = ls
visible ls (only s) = select (has_status s) ls

abbrev pub same_filter : StatusFilter → StatusFilter → Bool
same_filter all all = true
same_filter (only available) (only available) = true
same_filter (only sold) (only sold) = true
same_filter (only deleted) (only deleted) = true
same_filter _ _ = false

abbrev label : StatusFilter → String
label all = "All"
label (only s) = status_label s

abbrev filters : List StatusFilter
filters = all ∷ only available ∷ only sold ∷ only deleted ∷ []

-- One toggle, with its count.
abbrev toggles : List Listing → StatusFilter → List StatusFilter → View LedgerEvent
toggles ls current [] = []
toggles ls current (f ∷ fs) =
    choice (label f) (same_filter current f) (set_filter f)
    ∷ counts "{}" (count_of ls f ∷ [])
    ∷ toggles ls current fs

-- `STATUS_LABELS[filter].toLowerCase()`
abbrev lower_label : Status → String
lower_label available = "available"
lower_label sold = "sold"
lower_label deleted = "removed"

abbrev nothing_visible : StatusFilter → String
nothing_visible all = "No listings."
nothing_visible (only s) = "No " ⧺ lower_label s ⧺ " listings."

abbrev thumb : List ListingImage → View LedgerEvent
thumb [] = text "No photo yet" ∷ []
thumb (i ∷ _) = image i.url "" ∷ []

abbrev detail_href : Listing → String
detail_href l = "/listings/" ⧺ l.id

abbrev edit_link : Listing → Item LedgerEvent
edit_link l = link (detail_href l ⧺ "/edit") ("Edit " ⧺ l.title)

module _ (js : Numbers) (dates : Dates) where
  abbrev row_date : Listing → String
  row_date l =
      if is_sold l.status && truthy_option l.sold_at
      then "Sold " ⧺ dates.format_day (or_else l.sold_at "")
      else "Listed " ⧺ dates.format_day l.created_at

  unfoldable pub ledger_row : Listing → View LedgerEvent
  ledger_row l =
      thumb l.images
      ++ (link (detail_href l) l.title
          ∷ text l.author
          ∷ text (format_price js l.price)
          ∷ text "Condition: "
          ∷ text (condition_meter l.condition).word
          ∷ text (status_label l.status)
          ∷ text (row_date l)
          ∷ link (detail_href l) ("View " ⧺ l.title)
          ∷ when (is_available l.status) (edit_link l ∷ []))

  abbrev ledger_rows : List Listing → View LedgerEvent
  ledger_rows [] = []
  ledger_rows (l ∷ ls) = ledger_row l ++ ledger_rows ls

  abbrev ledger : StatusFilter → List Listing → View LedgerEvent
  ledger f [] = text (nothing_visible f) ∷ []
  ledger f (l ∷ ls) = ledger_rows (l ∷ ls)

  abbrev list_a_copy : View LedgerEvent
  list_a_copy = link "/listings/new" "List a copy" ∷ []

  abbrev is_nothing : Option (List Listing) → Bool
  is_nothing (some []) = true
  is_nothing _ = false

  -- `isPending`, `error` and `data` of `useMyListings`, and the filter.
  unfoldable pub my_listings_page :
      Bool → Option Thrown → Option (List Listing) → StatusFilter → View LedgerEvent
  unfolding query_state ledger_row visible count_of
  my_listings_page is_pending error result filter =
      let listings = or_else result [] in
      page_header "My listings" "Every copy you've listed, and where each one stands."
      ++ (list_a_copy
          ++ query_state is_pending error (is_nothing result) (status "Loading" ∷ [])
              (heading "You haven't listed anything yet"
                ∷ text
                    "Photograph a book you've finished, describe its wear, set a price, and it will appear here."
                ∷ list_a_copy)
              (toggles listings filter filters ++ ledger filter (visible listings filter)))
