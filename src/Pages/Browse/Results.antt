-- ===== src/Pages/Browse/Results.antt =====
-- All that frontend/src/pages/BrowsePage.tsx renders: the search, the filters beside and in the sheet, the results and
-- their pages. The styles hide the filters beside the results or the button of the sheet.
use punah_pustak.Common.{
  ℕ, ◌===◌, leb, String, Bool, false, not, ◌&&◌, Option, none, some, List, [], ◌∷◌, ◌++◌, length,
  if◌then◌else◌,
}
use punah_pustak.Api.Errors.{Thrown}
use punah_pustak.Js.{Numbers}
use punah_pustak.Listings.{Listing}
use punah_pustak.Ui.View.{View, heading, text, counts, status, button, field, when, map_events}
use punah_pustak.Ui.Parts.{query_state, modal}
use punah_pustak.Ui.Pagination.{PageEvent, on_page_change, pagination}
use punah_pustak.Ui.PhotoFrame.{Frame}
use punah_pustak.Ui.ListingCard.{listing_card, default_options}
use punah_pustak.Pages.Browse
use punah_pustak.Pages.Browse.{
  Browse, BrowseEvent, search_change, page_change, filters_clear, all_clear, sheet_open,
  sheet_close, active_filters, is_narrowed, few_results, is_empty,
}
use punah_pustak.Pages.Browse.Screen.{filter_fields, active_filter_list, no_results}

abbrev pub to_page : PageEvent → BrowseEvent
to_page (on_page_change p) = page_change p

-- A number of copies, where it is known.
abbrev copies_of : ℕ → View BrowseEvent
copies_of total = counts (if total === 1 then "{} copy" else "{} copies") (total ∷ []) ∷ []

abbrev pub total_line : Option (List Listing × ℕ) → View BrowseEvent
total_line none = []
total_line (some (_, total)) = copies_of total

abbrev pub few_matches : Browse → ℕ → View BrowseEvent
few_matches s total = when (is_narrowed s && leb total few_results) (
    counts (if total === 1 then "Only {} copy matches." else "Only {} copies match.") (total ∷ [])
    ∷ button "Clear the search and filters" false all_clear
    ∷ text "to see every copy."
    ∷ [])

-- The label of the button holds the number of copies, where it is known.
abbrev pub show_button : Option (List Listing × ℕ) → View BrowseEvent
show_button none = button "Show copies" false sheet_close ∷ []
show_button (some (_, total)) =
    counts (if total === 1 then "Show {} copy" else "Show {} copies") (total ∷ [])
    ∷ button "Show" false sheet_close
    ∷ []

abbrev pub search_row : Browse → View BrowseEvent
search_row s =
    heading "Browse copies"
    ∷ field "Search" s.search none search_change
    ∷ button "Filters" false sheet_open
    ∷ when (not (is_empty (active_filters s))) (counts "· {}" (length (active_filters s) ∷ []) ∷ [])

abbrev pub side_filters : Browse → View BrowseEvent
side_filters s =
    filter_fields s
    ++ when (not (is_empty (active_filters s))) (button "Clear filters" false filters_clear ∷ [])

abbrev pub filter_sheet : Browse → Option (List Listing × ℕ) → View BrowseEvent
filter_sheet s result = modal s.is_filter_sheet_open sheet_close "Filter copies" (
    filter_fields s
    ++ (button "Clear all" (is_empty (active_filters s)) filters_clear ∷ show_button result))

module _ (js : Numbers) (photo : String → Frame) where
  abbrev pub cards : List Listing → View BrowseEvent
  cards [] = []
  cards (l ∷ ls) = listing_card js default_options (photo l.id) l ++ cards ls

  -- The children of `QueryState`.
  abbrev pub result_items : Browse → Option (List Listing × ℕ) → View BrowseEvent
  result_items s none = []
  result_items s (some ([], total)) = no_results (is_narrowed s)
  result_items s (some (l ∷ ls, total)) =
      cards (l ∷ ls)
      ++ (few_matches s total
          ++ map_events to_page (pagination s.page punah_pustak.Pages.Browse.page_size total))

  -- `isPending`, `error` and `data` of `useBrowseListings`.
  abbrev pub results : Bool → Option Thrown → Browse → Option (List Listing × ℕ) → View BrowseEvent
  results is_pending error s result =
      total_line result
      ++ (active_filter_list s
          ++ query_state is_pending error false (status "Loading" ∷ []) [] (result_items s result))

  unfoldable pub browse_page :
      Bool → Option Thrown → Browse → Option (List Listing × ℕ) → View BrowseEvent
  browse_page is_pending error s result =
      search_row s
      ++ (side_filters s ++ (results is_pending error s result ++ filter_sheet s result))
