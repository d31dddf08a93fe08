-- ===== src/Pages/Browse/Tests.antt =====
-- The browse page on concrete states.
use punah_pustak.Common.{true, ◌≤◌, inr, inl, ◌==◌, ◌≡◌, refl, String, none, [], ◌∷◌, Dict}
use punah_pustak.Js.{Numbers}
use punah_pustak.Ui.PhotoFrame
use punah_pustak.Ui.PhotoFrame.{Frame}
use punah_pustak.Pages.Browse.Results.{browse_page}
use punah_pustak.Pages.Browse.Paging.{acts, opens, asked_page_from_one}
use punah_pustak.Pages.Browse.{
  search_change, Browse, by_category, by_price, PricePreset, active_filters, page_change, mount,
  update, browse_query, price_label,
}

-- Texts for numbers, of which "x" is not one.
abbrev texts : Numbers
texts = record {
  Number = String;
  number = λ s. s;
  parse_float = λ s. s;
  is_nan = λ s. s == "x";
  at_most_zero = λ s. s == "0";
  to_fixed_2 = λ s. s;
}

abbrev link_params : Dict String
link_params =
    ("search", "dune")
    ∷ ("category", "fiction")
    ∷ ("condition", "mint")
    ∷ ("min_price", "5")
    ∷ ("max_price", "x")
    ∷ []

abbrev seeded : Browse
seeded = update texts (mount texts link_params) (page_change 3)

seeded_filters :
    active_filters seeded
    ≡ record { key = by_category; label = "Fiction" }
      ∷ record { key = by_price; label = "From $5" }
      ∷ []
unfolding mount update active_filters price_label
seeded_filters = refl

abbrev under_five : PricePreset
under_five = record { label = "Under $5"; min = ""; max = "4.99" }

-- Every photo is loading.
abbrev all_loading : String → Frame
all_loading _ = punah_pustak.Ui.PhotoFrame.initial

asked_page_from_one_example :
    1 ≤ (browse_query texts (update texts (mount texts link_params) (search_change "dune"))).page
asked_page_from_one_example = asked_page_from_one texts all_loading _ (
    acts (mount texts link_params) (search_change "dune") true none none (opens link_params)
      (unfold browse_page in inr (inl ("dune", refl))))
