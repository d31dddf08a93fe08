-- ===== src/Pages/Browse/Filters.antt =====
-- The filters of the browse page: the list of active filters, the presets, clearing.
use punah_pustak.Common.{◌≡◌, refl, Bool, true, false, not, none, List, arith, eq_refl, select}
use punah_pustak.Js.{Numbers}
use punah_pustak.Pages.Browse.{
  Browse, FilterKey, by_category, by_condition, by_price, ActiveFilter, active_filters,
  preset_press, filter_clear, all_clear, debounced, PricePreset, is_on, update, is_narrowed,
  has_search, browse_query,
}

abbrev same_key : FilterKey → FilterKey → Bool
same_key by_category by_category = true
same_key by_condition by_condition = true
same_key by_price by_price = true
same_key _ _ = false

abbrev pub without : FilterKey → List ActiveFilter → List ActiveFilter
without k fs = select (λ (f : ActiveFilter). not (same_key k f.key)) fs

module _ (js : Numbers) where
  -- Removing an active filter takes exactly that one off the list and leaves the search alone.
  pub filter_clear_removes :
      (s : Browse) (k : FilterKey)
      → (active_filters (update js s (filter_clear k)) ≡ without k (active_filters s))
        × ((update js s (filter_clear k)).search ≡ s.search)
  unfolding update active_filters
  filter_clear_removes s by_category = ground arith
  filter_clear_removes s by_condition = ground arith
  filter_clear_removes s by_price = ground arith

  -- Pressing a preset that is off turns it on, on the first page; pressing it again leaves no price.
  pub preset_toggles :
      (s : Browse) (p : PricePreset)
      → is_on p s ≡ false
      → let s' = update js s (preset_press p) in
        let s'' = update js s' (preset_press p) in
        (is_on p s' ≡ true) × (s'.page ≡ 1) × (s''.min_price ≡ "") × (s''.max_price ≡ "")
  unfolding update
  preset_toggles s p h = ground (arith, eq_refl p.min, eq_refl p.max)

  -- After everything is cleared and the search box has settled, the page is not narrowed and the
  -- query asks for the first page with no search and no filter.
  pub all_clear_widens :
      (s : Browse)
      → let s' = update js (update js s all_clear) (debounced "") in
        (is_narrowed s' ≡ false)
        × (browse_query js s' ≡ record {
          search = none;
          category = none;
          condition = none;
          min_price = none;
          max_price = none;
          page = 1;
          page_size = 24;
        })
  unfolding update is_narrowed has_search active_filters browse_query punah_pustak.Js.trim
  all_clear_widens s = (refl, refl)
