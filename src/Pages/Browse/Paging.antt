-- ===== src/Pages/Browse/Paging.antt =====
-- The page number of the browse page.
use punah_pustak.Common.{
  ℕ, ◌≤◌, String, Bool, false, Option, none, some, List, [], ◌∷◌, arith, Dict,
}
use punah_pustak.Api.Errors.{Thrown}
use punah_pustak.Js.{Numbers}
use punah_pustak.Listings.{Listing}
use punah_pustak.Ui.View.{Allows-append, Offers, Offers-Allows, map_events}
use punah_pustak.Ui.Pagination.{pagination}
use punah_pustak.Ui.PhotoFrame.{Frame}
use punah_pustak.Pages.Browse
use punah_pustak.Pages.Browse.{
  Browse, BrowseEvent, page_change, PricePreset, ActiveFilter, active_filters, is_narrowed,
  price_presets, mount, update, is_empty, is_on, reseed, debounced, params_change, filters_clear,
  sheet_close, browse_query, clear_filter, clear_filters, clear_all, set_price_range,
}
use punah_pustak.Pages.Browse.Fitting.{Fits, Sound, no_results-Sound, cards-Sound, page-Sound}
use punah_pustak.Pages.Browse.Results.{few_matches, to_page, cards, result_items, browse_page}

-- The first page or a later one.
abbrev FromOne : ℕ → Type 0
FromOne p = 1 ≤ p

-- No page at all.
abbrev NoPage : ℕ → Type 0
NoPage p = ⊥

pages-Sound :
    (page page_size total : ℕ)
    → 1 ≤ page
    → Sound FromOne (map_events to_page (pagination page page_size total))
unfolding pagination
pages-Sound page page_size total h = ground arith

module _ (js : Numbers) (photo : String → Frame) where
  items-Sound :
      (s : Browse) (result : Option (List Listing × ℕ))
      → 1 ≤ s.page
      → Sound FromOne (result_items js photo s result)
  items-Sound s none h = tt
  items-Sound s (some ([], total)) h = no_results-Sound FromOne (is_narrowed s)
  items-Sound s (some (l ∷ ls, total)) h =
      Allows-append (Fits FromOne) (cards js photo (l ∷ ls)) _
        (cards-Sound FromOne js photo (l ∷ ls))
        (Allows-append (Fits FromOne) (few_matches s total) _ (ground arith)
          (pages-Sound s.page punah_pustak.Pages.Browse.page_size total h))

  update-page :
      (s : Browse) (e : BrowseEvent) → Fits FromOne e → 1 ≤ s.page → 1 ≤ (update js s e).page
  unfolding update reseed clear_filter clear_filters clear_all set_price_range
  update-page s e h k = ground arith

  -- The states of the page that a visit can come to: it opens at a URL, the visitor acts on what is rendered with
  -- whatever results there are at the time, the timer of the search fires, or the URL changes.
  pub data Visits : Browse → Type 0 where
    opens : (params : Dict String) → Visits (mount js params)
    acts :
        (s : Browse) (e : BrowseEvent) (is_pending : Bool) (error : Option Thrown)
        → (result : Option (List Listing × ℕ)) → Visits s
        → Offers e (browse_page js photo is_pending error s result)
        → Visits (update js s e)
    timer : (s : Browse) (v : String) → Visits s → Visits (update js s (debounced v))
    moves :
        (s : Browse) (params : Dict String) → Visits s → Visits (update js s (params_change params))

  -- In whatever way a visit goes, and whatever totals the server answers meanwhile, the page of results that is asked
  -- for is the first or a later one, never the page 0.
  pub asked_page_from_one : (s : Browse) → Visits s → 1 ≤ (browse_query js s).page
  unfolding browse_query
  asked_page_from_one s v = from_one s v
    where
      from_one : (s : Browse) → Visits s → 1 ≤ s.page
      from_one s (opens params) = unfold mount in omega arith
      from_one s (acts s' e is_pending error result v o) =
          update-page s' e
            (Offers-Allows (Fits FromOne) e _
              (page-Sound FromOne js photo s' is_pending error result
                (items-Sound s' result (from_one s' v)))
              o)
            (from_one s' v)
      from_one s (timer s' v w) = update-page s' (debounced v) tt (from_one s' w)
      from_one s (moves s' params w) = update-page s' (params_change params) tt (from_one s' w)

  -- Where the server answers no copies for the page asked for, whatever total it gives, none of the browse page's
  -- controls is one for changing the page.
  pub empty_page_without_pagination :
      (s : Browse) (total p : ℕ)
      → ¬ Offers (page_change p) (browse_page js photo false none s (some ([], total)))
  empty_page_without_pagination s total p o =
      Offers-Allows (Fits NoPage) (page_change p) _
        (page-Sound NoPage js photo s false none (some ([], total))
          (no_results-Sound NoPage (is_narrowed s)))
        o
