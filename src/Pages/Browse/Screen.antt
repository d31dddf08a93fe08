-- ===== src/Pages/Browse/Screen.antt =====
-- `FilterFields`, `NoResults` and the list of active filters of frontend/src/pages/BrowsePage.tsx, and
-- what they let the user choose.
use punah_pustak.Common.{
  String, Bool, true, false, not, ◌==◌, ◌≡◌, ◌⊎◌, inl, inr, refl, none, List, [], ◌∷◌, ◌++◌, Dict,
  lookup, is_some, if◌then◌else◌,
}
use punah_pustak.Listings.{
  Condition, new, like_new, good, fair, poor, condition_value, condition_labels, category_labels,
  conditions_best_first,
}
use punah_pustak.Listings.Labels.{condition_meter}
use punah_pustak.Js.{◌⧺◌}
use punah_pustak.Ui.View.{
  View, heading, text, link, button, choice, field, Allows, Allows-append, Offers, Offers-Allows,
}
use punah_pustak.Pages.Browse.{
  Browse, PricePreset, price_presets, ActiveFilter, active_filters, BrowseEvent, category_change,
  condition_change, min_price_change, max_price_change, preset_press, filter_clear, filters_clear,
  all_clear, category_browse, is_on, is_narrowed,
}

-- The radios of the categories after "Any category".
abbrev pub category_choices : (current : String) → Dict String → View BrowseEvent
category_choices current [] = []
category_choices current ((value, label) ∷ rest) =
    choice label (current == value) (category_change value) ∷ category_choices current rest

abbrev pub condition_choices : (current : String) → List Condition → View BrowseEvent
condition_choices current [] = []
condition_choices current (c ∷ cs) =
    choice ("Condition: " ⧺ (condition_meter c).word) (current == condition_value c)
      (condition_change (condition_value c))
    ∷ condition_choices current cs

abbrev pub preset_choices : Browse → List PricePreset → View BrowseEvent
preset_choices s [] = []
preset_choices s (p ∷ ps) = choice p.label (is_on p s) (preset_press p) ∷ preset_choices s ps

abbrev pub price_fieldset : Browse → View BrowseEvent
price_fieldset s =
    heading "Price"
    ∷ field "Minimum price" s.min_price none min_price_change
    ∷ text "-"
    ∷ field "Maximum price" s.max_price none max_price_change
    ∷ preset_choices s price_presets

abbrev pub condition_fieldset : Browse → View BrowseEvent
condition_fieldset s =
    heading "Condition"
    ∷ choice "Any condition" (s.condition == "") (condition_change "")
    ∷ condition_choices s.condition conditions_best_first

abbrev pub category_fieldset : Browse → View BrowseEvent
category_fieldset s =
    heading "Category"
    ∷ choice "Any category" (s.category == "") (category_change "")
    ∷ category_choices s.category category_labels

unfoldable pub filter_fields : Browse → View BrowseEvent
filter_fields s = category_fieldset s ++ (condition_fieldset s ++ price_fieldset s)

abbrev pub filter_chips : List ActiveFilter → View BrowseEvent
filter_chips [] = []
filter_chips (f ∷ fs) =
    button ("Remove filter: " ⧺ f.label) false (filter_clear f.key) ∷ filter_chips fs

abbrev pub chips_or_order : List ActiveFilter → View BrowseEvent
chips_or_order [] = text "newest first" ∷ []
chips_or_order (f ∷ fs) = filter_chips (f ∷ fs) ++ (button "Clear all" false filters_clear ∷ [])

-- The active filters above the results.
unfoldable pub active_filter_list : Browse → View BrowseEvent
unfolding active_filters
active_filter_list s = chips_or_order (active_filters s)

abbrev pub category_starts : Dict String → View BrowseEvent
category_starts [] = []
category_starts ((value, label) ∷ rest) =
    button label false (category_browse value) ∷ category_starts rest

unfoldable pub no_results : Bool → View BrowseEvent
no_results is_narrowed =
    if not is_narrowed
    then heading "Nothing is listed yet"
      ∷ text "No one has listed a copy so far."
      ∷ link "/listings/new" "List the first book"
      ∷ []
    else heading "No books match your filters"
      ∷ text "Try a shorter search term, or remove a filter above."
      ∷ button "Clear search and filters" false all_clear
      ∷ heading "Or start from a category"
      ∷ category_starts category_labels

-- Empty, or a key of the labels.
abbrev IsLabelled : Dict String → String → Type 0
IsLabelled labels v = (v ≡ "") ⊎ (is_some (lookup v labels) ≡ true)

-- A category or condition that the event sets has a label, or is empty.
abbrev pub SetsLabelled : BrowseEvent → Type 0
SetsLabelled (category_change v) = IsLabelled category_labels v
SetsLabelled (category_browse v) = is_some (lookup v category_labels) ≡ true
SetsLabelled (condition_change v) = IsLabelled condition_labels v
SetsLabelled _ = Unit

condition-IsLabelled :
    (c : Condition) → is_some (lookup (condition_value c) condition_labels) ≡ true
condition-IsLabelled new = refl
condition-IsLabelled like_new = refl
condition-IsLabelled good = refl
condition-IsLabelled fair = refl
condition-IsLabelled poor = refl

conditions-Allows :
    (current : String) (cs : List Condition) → Allows SetsLabelled (condition_choices current cs)
conditions-Allows current [] = tt
conditions-Allows current (c ∷ cs) = (inr (condition-IsLabelled c), conditions-Allows current cs)

presets-Allows : (s : Browse) (ps : List PricePreset) → Allows SetsLabelled (preset_choices s ps)
presets-Allows s [] = tt
presets-Allows s (p ∷ ps) = (tt, presets-Allows s ps)

categories-Allows :
    (current : String) → Allows SetsLabelled (category_choices current category_labels)
categories-Allows current =
    (inr refl, (inr refl, (inr refl, (inr refl, (inr refl, (inr refl, tt))))))

fields-Allows : (s : Browse) → Allows SetsLabelled (filter_fields s)
unfolding filter_fields
fields-Allows s =
    Allows-append SetsLabelled (category_fieldset s) (condition_fieldset s ++ price_fieldset s)
      (tt, (inl refl, categories-Allows s.category))
      (Allows-append SetsLabelled (condition_fieldset s) (price_fieldset s)
        (tt, (inl refl, conditions-Allows s.condition conditions_best_first))
        (tt, ((λ _. tt), (tt, ((λ _. tt), presets-Allows s price_presets)))))

chips-Allows : (fs : List ActiveFilter) → Allows SetsLabelled (filter_chips fs)
chips-Allows [] = tt
chips-Allows (f ∷ fs) = ((λ _. tt), chips-Allows fs)

list-Allows : (fs : List ActiveFilter) → Allows SetsLabelled (chips_or_order fs)
list-Allows [] = (tt, tt)
list-Allows (f ∷ fs) =
    Allows-append SetsLabelled (filter_chips (f ∷ fs)) _ (chips-Allows (f ∷ fs)) ((λ _. tt), tt)

no_results-Allows : (b : Bool) → Allows SetsLabelled (no_results b)
unfolding no_results
no_results-Allows true = (
  tt,
  (
    tt,
    (
      (λ _. tt),
      (
        tt,
        (
          (λ _. refl),
          ((λ _. refl), ((λ _. refl), ((λ _. refl), ((λ _. refl), ((λ _. refl), tt))))),
        ),
      ),
    ),
  ),
)
no_results-Allows false = (tt, (tt, (tt, tt)))

-- Whatever the URL seeded, what the filters, the list of active filters and the page without results offer sets no
-- category and no condition but one that has a label, or none at all.
pub choices_have_labels :
    (s : Browse) (e : BrowseEvent)
    → Offers e (filter_fields s ++ (active_filter_list s ++ no_results (is_narrowed s)))
    → SetsLabelled e
unfolding active_filter_list
choices_have_labels s e o =
    Offers-Allows SetsLabelled e
      (filter_fields s ++ (active_filter_list s ++ no_results (is_narrowed s)))
      (Allows-append SetsLabelled (filter_fields s) _ (fields-Allows s) (
        Allows-append SetsLabelled (active_filter_list s) _ (list-Allows (active_filters s))
          (no_results-Allows (is_narrowed s))))
      o
