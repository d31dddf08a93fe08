-- ===== src/Pages/Browse/Fitting.antt =====
-- What the parts of the browse page offer: where the pages satisfy `Q`, so does every page that an event asks for.
use punah_pustak.Common.{
  ℕ, String, Bool, true, false, Option, none, some, List, [], ◌∷◌, ◌++◌, arith, Dict,
}
use punah_pustak.Api.Errors.{Thrown}
use punah_pustak.Js.{Numbers}
use punah_pustak.Listings.{Listing, Condition, category_labels, conditions_best_first}
use punah_pustak.Ui.View.{
  View, Item, Allows, Allows-append, Allows-when, Offers, Offers-Allows, map_events, when, button,
}
use punah_pustak.Ui.Parts.{query_state, modal}
use punah_pustak.Ui.PhotoFrame.{
  Frame, Loading, loading, loaded, failed, Variant, photo_frame, no_cover,
}
use punah_pustak.Ui.ListingCard.{
  listing_card, default_options, card_photo, card_facts, missing_photo, seller_line,
  note_and_status,
}
use punah_pustak.Pages.Browse.{
  Browse, BrowseEvent, page_change, PricePreset, ActiveFilter, active_filters, price_presets,
  is_empty, filters_clear, sheet_close,
}
use punah_pustak.Pages.Browse.Screen.{
  filter_fields, active_filter_list, no_results, category_choices, condition_choices,
  preset_choices, category_fieldset, condition_fieldset, price_fieldset, filter_chips,
  chips_or_order, category_starts,
}
use punah_pustak.Pages.Browse.Results.{
  total_line, cards, result_items, show_button, search_row, side_filters, filter_sheet, results,
  browse_page,
}

module _ (Q : ℕ → Type 0) where
  -- An event that asks for a page asks for one that satisfies `Q`.
  abbrev pub Fits : BrowseEvent → Type 0
  Fits (page_change p) = Q p
  Fits _ = Unit

  abbrev pub Sound : View BrowseEvent → Type 0
  Sound v = Allows Fits v

  categories-Sound :
      (current : String) (labels : Dict String) → Sound (category_choices current labels)
  categories-Sound current [] = tt
  categories-Sound current (_ ∷ rest) = (tt, categories-Sound current rest)

  conditions-Sound : (current : String) (cs : List Condition) → Sound (condition_choices current cs)
  conditions-Sound current [] = tt
  conditions-Sound current (c ∷ cs) = (tt, conditions-Sound current cs)

  presets-Sound : (s : Browse) (ps : List PricePreset) → Sound (preset_choices s ps)
  presets-Sound s [] = tt
  presets-Sound s (p ∷ ps) = (tt, presets-Sound s ps)

  fields-Sound : (s : Browse) → Sound (filter_fields s)
  unfolding filter_fields
  fields-Sound s =
      Allows-append Fits (category_fieldset s) (condition_fieldset s ++ price_fieldset s)
        (tt, (tt, categories-Sound s.category category_labels))
        (Allows-append Fits (condition_fieldset s) (price_fieldset s)
          (tt, (tt, conditions-Sound s.condition conditions_best_first))
          (tt, ((λ _. tt), (tt, ((λ _. tt), presets-Sound s price_presets)))))

  chips-Sound : (fs : List ActiveFilter) → Sound (filter_chips fs)
  chips-Sound [] = tt
  chips-Sound (f ∷ fs) = ((λ _. tt), chips-Sound fs)

  list-Sound : (fs : List ActiveFilter) → Sound (chips_or_order fs)
  list-Sound [] = (tt, tt)
  list-Sound (f ∷ fs) =
      Allows-append Fits (filter_chips (f ∷ fs)) _ (chips-Sound (f ∷ fs)) ((λ _. tt), tt)

  starts-Sound : (labels : Dict String) → Sound (category_starts labels)
  starts-Sound [] = tt
  starts-Sound (_ ∷ rest) = ((λ _. tt), starts-Sound rest)

  pub no_results-Sound : (b : Bool) → Sound (no_results b)
  unfolding no_results
  no_results-Sound true = (tt, (tt, ((λ _. tt), (tt, starts-Sound category_labels))))
  no_results-Sound false = (tt, (tt, (tt, tt)))

  photo-Sound :
      (f : Frame) (i : Option (String × String))
      → Sound (photo_frame f punah_pustak.Ui.PhotoFrame.grid false i)
  unfolding photo_frame no_cover
  photo-Sound f i = ground arith

  card-Sound :
      (js : Numbers) (f : Frame) (l : Listing) → Sound (listing_card js default_options f l)
  unfolding listing_card
  card-Sound js f l = (
    tt,
    Allows-append Fits (card_photo f l)
        (card_facts js l
          ++ (missing_photo l ++ (seller_line true l ++ note_and_status default_options l)))
        (photo-Sound f _)
        (
          tt,
          (
            tt,
            (
              tt,
              (
                tt,
                (
                  tt,
                  Allows-append Fits (missing_photo l)
                      (seller_line true l ++ note_and_status default_options l) (ground arith)
                      (Allows-append Fits (seller_line true l) (note_and_status default_options l)
                        (ground arith) (ground arith)),
                ),
              ),
            ),
          ),
        ),
  )

  query-Sound :
      (is_pending : Bool) (error : Option Thrown) (v : View BrowseEvent)
      → Sound v
      → Sound (query_state is_pending error false (punah_pustak.Ui.View.status "Loading" ∷ []) [] v)
  unfolding query_state
  query-Sound true error v h = (tt, tt)
  query-Sound false none v h = h
  query-Sound false (some t) v h = (tt, tt)

  side-Sound : (s : Browse) → Sound (side_filters s)
  side-Sound s = Allows-append Fits (filter_fields s) _ (fields-Sound s) (ground arith)

  sheet-Sound : (s : Browse) (result : Option (List Listing × ℕ)) → Sound (filter_sheet s result)
  unfolding modal
  sheet-Sound s result = in_sheet s.is_filter_sheet_open
    where
      contents : View BrowseEvent
      contents =
          filter_fields s
          ++ (button "Clear all" (is_empty (active_filters s)) filters_clear ∷ show_button result)

      in_sheet : (b : Bool) → Sound (modal b sheet_close "Filter copies" contents)
      in_sheet false = tt
      in_sheet true =
          (tt, (tt, Allows-append Fits (filter_fields s) _ (fields-Sound s) (ground arith)))

  pub cards-Sound :
      (js : Numbers) (photo : String → Frame) (ls : List Listing) → Sound (cards js photo ls)
  cards-Sound js photo [] = tt
  cards-Sound js photo (l ∷ ls) =
      Allows-append Fits (listing_card js default_options (photo l.id) l) (cards js photo ls)
        (card-Sound js (photo l.id) l) (cards-Sound js photo ls)

  -- The page, where its pagination and its results fit.
  pub page-Sound :
      (js : Numbers) (photo : String → Frame) (s : Browse) (is_pending : Bool)
      (error : Option Thrown)
      → (result : Option (List Listing × ℕ)) → Sound (result_items js photo s result)
      → Sound (browse_page js photo is_pending error s result)
  unfolding browse_page active_filter_list
  page-Sound js photo s is_pending error result h =
      Allows-append Fits (search_row s) _ (ground arith) (
        Allows-append Fits (side_filters s) _ (side-Sound s) (
          Allows-append Fits (results js photo is_pending error s result) _
            (Allows-append Fits (total_line result) _ (ground arith) (
              Allows-append Fits (active_filter_list s) _ (list-Sound (active_filters s))
                (query-Sound is_pending error (result_items js photo s result) h)))
            (sheet-Sound s result)))
