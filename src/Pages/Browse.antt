-- ===== src/Pages/Browse.antt =====
-- frontend/src/pages/BrowsePage.tsx: the state of the browse page, its handlers and its query. As
-- in the source, a category or a condition is a text, empty for none.
pub mod Filters
pub mod Seeding
pub mod Screen
pub mod Results
pub mod Fitting
pub mod Paging
mod Tests
use punah_pustak.Common.{
  ℕ, ◌==◌, String, Bool, true, false, not, ◌&&◌, ◌||◌, Option, none, some, List, [], ◌∷◌, ◌++◌,
  Dict, lookup, keys, includes, or_else, truthy, length, leb, if◌then◌else◌,
}
use punah_pustak.Js.{Numbers, trim, ◌⧺◌}
use punah_pustak.Listings.{category_labels, condition_labels}

abbrev pub page_size : ℕ
page_size = 24

abbrev pub few_results : ℕ
few_results = 3

pub record PricePreset : Type 0 where
  pub label : String
  pub min : String
  pub max : String

abbrev pub price_presets : List PricePreset
price_presets =
    record { label = "Under $5"; min = ""; max = "4.99" }
    ∷ record { label = "$5-15"; min = "5"; max = "15" }
    ∷ record { label = "$15+"; min = "15"; max = "" }
    ∷ []

-- The keys that every object inherits from `Object.prototype`.
abbrev pub prototype_keys : List String
prototype_keys =
    "constructor" ∷ "hasOwnProperty" ∷ "isPrototypeOf" ∷ "propertyIsEnumerable" ∷ "toLocaleString"
    ∷ "toString" ∷ "valueOf" ∷ "__defineGetter__" ∷ "__defineSetter__" ∷ "__lookupGetter__"
    ∷ "__lookupSetter__" ∷ "__proto__" ∷ []

-- `value in labels`
abbrev pub has_key : String → Dict String → Bool
has_key value labels = includes (keys labels) value || includes prototype_keys value

-- `value && value in labels ? value : ""`
abbrev choice_from : Dict String → Option String → String
choice_from labels none = ""
choice_from labels (some value) = if truthy value && has_key value labels then value else ""

unfoldable pub category_from_params : Dict String → String
category_from_params params = choice_from category_labels (lookup "category" params)

unfoldable pub condition_from_params : Dict String → String
condition_from_params params = choice_from condition_labels (lookup "condition" params)

abbrev pub optional : String → Option String
optional s = if truthy s then some s else none

pub record Browse : Type 0 where
  pub search : String
  pub debounced_search : String
  pub category : String
  pub condition : String
  pub min_price : String
  pub max_price : String
  pub page : ℕ
  pub is_filter_sheet_open : Bool

pub data FilterKey : Type 0 where
  by_category by_condition by_price : FilterKey

pub record ActiveFilter : Type 0 where
  pub key : FilterKey
  pub label : String

-- `CATEGORY_LABELS[category]`, empty where React renders nothing
abbrev pub label_in : Dict String → String → String
label_in labels value = or_else (lookup value labels) ""

abbrev find_preset : String → String → List PricePreset → Option PricePreset
find_preset min max [] = none
find_preset min max (p ∷ ps) =
    if (p.min == min) && (p.max == max) then some p else find_preset min max ps

abbrev price_label_of : Option PricePreset → String → String → String
price_label_of (some preset) min max = preset.label
price_label_of none min max =
    if truthy min && truthy max
    then "$" ⧺ min ⧺ "-$" ⧺ max
    else if truthy min
    then "From $" ⧺ min
    else "Up to $" ⧺ max

unfoldable pub price_label : String → String → String
price_label min max = price_label_of (find_preset min max price_presets) min max

-- `if (category) activeFilters.push(…)`, and so on.
unfoldable pub active_filters : Browse → List ActiveFilter
active_filters s =
    (if truthy s.category
      then record { key = by_category; label = label_in category_labels s.category } ∷ []
      else [])
    ++ ((if truthy s.condition
          then record { key = by_condition; label = label_in condition_labels s.condition } ∷ []
          else [])
        ++ (if truthy s.min_price || truthy s.max_price
            then record { key = by_price; label = price_label s.min_price s.max_price } ∷ []
            else []))

unfoldable pub has_search : Browse → Bool
has_search s = truthy (trim s.debounced_search)

abbrev is_empty {ℓ} : {A : Type ℓ} → List A → Bool
is_empty [] = true
is_empty (_ ∷ _) = false

unfoldable pub is_narrowed : Browse → Bool
is_narrowed s = has_search s || not (is_empty (active_filters s))

unfoldable pub set_price_range : String → String → Browse → Browse
set_price_range lo hi s = record s { min_price = lo; max_price = hi; page = 1 }

unfoldable pub clear_filters : Browse → Browse
unfolding set_price_range
clear_filters s = set_price_range "" "" (record s { category = ""; condition = "" })

unfoldable pub clear_all : Browse → Browse
unfolding clear_filters
clear_all s = record (clear_filters s) { search = "" }

-- The `clear` of an active filter.
unfoldable pub clear_filter : FilterKey → Browse → Browse
unfolding set_price_range
clear_filter by_category s = record s { category = ""; page = 1 }
clear_filter by_condition s = record s { condition = ""; page = 1 }
clear_filter by_price s = set_price_range "" "" s

pub data BrowseEvent : Type 0 where
  search_change category_change condition_change min_price_change max_price_change :
      String → BrowseEvent
  preset_press : PricePreset → BrowseEvent
  filter_clear : FilterKey → BrowseEvent
  filters_clear all_clear : BrowseEvent
  category_browse : String → BrowseEvent
  page_change : ℕ → BrowseEvent
  sheet_open sheet_close : BrowseEvent
  -- the timer of `useDebouncedValue` fires, with the value that it was set for
  debounced : String → BrowseEvent
  -- the URL changes while the page is mounted
  params_change : Dict String → BrowseEvent

abbrev pub is_on : PricePreset → Browse → Bool
is_on p s = (s.min_price == p.min) && (s.max_price == p.max)

module _ (js : Numbers) where
  open js use {Number, number, is_nan}

  -- `value && !Number.isNaN(Number(value)) ? value : ""`
  abbrev price_value : Option String → String
  price_value none = ""
  price_value (some value) = if truthy value && not (is_nan (number value)) then value else ""

  unfoldable pub price_from_params : Dict String → String → String
  price_from_params params key = price_value (lookup key params)

  -- The effect keyed on the serialized params.
  unfoldable pub reseed : Dict String → Browse → Browse
  unfolding price_from_params category_from_params condition_from_params
  reseed params s = record s {
    search = or_else (lookup "search" params) "";
    category = category_from_params params;
    condition = condition_from_params params;
    min_price = price_from_params params "min_price";
    max_price = price_from_params params "max_price";
    page = 1;
  }

  -- The state with which the page mounts.
  unfoldable pub mount : Dict String → Browse
  unfolding price_from_params category_from_params condition_from_params
  mount params = record {
    search = or_else (lookup "search" params) "";
    debounced_search = or_else (lookup "search" params) "";
    category = category_from_params params;
    condition = condition_from_params params;
    min_price = price_from_params params "min_price";
    max_price = price_from_params params "max_price";
    page = 1;
    is_filter_sheet_open = false;
  }

  unfoldable pub update : Browse → BrowseEvent → Browse
  unfolding reseed clear_filters clear_all clear_filter set_price_range
  update s (search_change v) = record s { search = v; page = 1 }
  update s (category_change v) = record s { category = v; page = 1 }
  update s (condition_change v) = record s { condition = v; page = 1 }
  update s (min_price_change v) = record s { min_price = v; page = 1 }
  update s (max_price_change v) = record s { max_price = v; page = 1 }
  update s (preset_press p) =
      if is_on p s then set_price_range "" "" s else set_price_range p.min p.max s
  update s (filter_clear k) = clear_filter k s
  update s filters_clear = clear_filters s
  update s all_clear = clear_all s
  update s (category_browse c) = record (clear_all s) { category = c }
  update s (page_change p) = record s { page = p }
  update s sheet_open = record s { is_filter_sheet_open = true }
  update s sheet_close = record s { is_filter_sheet_open = false }
  update s (debounced v) = record s { debounced_search = v }
  update s (params_change params) = reseed params s

  -- The argument of `useBrowseListings`, `none` for `undefined`.
  pub record BrowseFilters : Type 0 where
    pub search : Option String
    pub category : Option String
    pub condition : Option String
    pub min_price : Option Number
    pub max_price : Option Number
    pub page : ℕ
    pub page_size : ℕ

  abbrev optional_number : String → Option Number
  optional_number s = if truthy s then some (number s) else none

  unfoldable pub browse_query : Browse → BrowseFilters
  browse_query s = record {
    search = optional s.debounced_search;
    category = optional s.category;
    condition = optional s.condition;
    min_price = optional_number s.min_price;
    max_price = optional_number s.max_price;
    page = s.page;
    page_size = page_size;
  }
