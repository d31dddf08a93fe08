-- ===== src/Api/Endpoints/Reading.antt =====
-- What the query of a URL that `buildUrl` writes says of each key.
use punah_pustak.Common.{
  String, true, false, subst, Option, none, some, ◌≡◌, ◌==◌, refl, arith, eq_iff, [], ◌∷◌, Dict,
  lookup, lookup-assign, if◌then◌else◌, ◌∙◌, ap,
}
use punah_pustak.Api.Endpoints.{
  Value, BrowseFilters, browse_entries, search_params, set_params, set_param, value_text,
}

-- What holds of `s`, and of every text that is not `s`, holds.
split_on : (s k : String) (P : String → Type 0) → P s → ((s == k) ≡ false → P k) → P k
split_on s k P h f =
    elim (s == k) as (λ b. (s == k) ≡ b → P k) [
      | true ↦ λ e. subst P ((eq_iff s k).0 e) h
      | false ↦ f
    ]
      refl

-- `value ?? otherwise`
abbrev first : Option String → Option String → Option String
first none t = t
first (some s) t = some s

module _ {N : Type 0} (to_text : N → String) where
  abbrev own_text : Option (Value N) → Option String
  own_text none = none
  own_text (some v) = some (value_text to_text v)

  -- The text of the last entry with a key that is neither null nor undefined.
  abbrev last_text : String → Dict (Option (Value N)) → Option String
  last_text k [] = none
  last_text k ((j, v) ∷ query) = first (last_text k query) (if j == k then own_text v else none)

  lookup-set_param :
      (k j : String) (v : Option (Value N)) (params : Dict String)
      → lookup k (set_param to_text j v params)
        ≡ first (if j == k then own_text v else none) (lookup k params)
  lookup-set_param k j none params = ground arith
  lookup-set_param k j (some v) params =
      ground (arith, lookup-assign j k (value_text to_text v) params)

  first_assoc : (a b c : Option String) → first a (first b c) ≡ first (first a b) c
  first_assoc none b c = refl
  first_assoc (some s) b c = refl

  lookup-set_params :
      (k : String) (query : Dict (Option (Value N))) (params : Dict String)
      → lookup k (set_params to_text query params) ≡ first (last_text k query) (lookup k params)
  lookup-set_params k [] params = refl
  lookup-set_params k ((j, v) ∷ query) params =
      lookup-set_params k query (set_param to_text j v params)
      ∙ ap (first (last_text k query)) (lookup-set_param k j v params)
      ∙ first_assoc (last_text k query) _ (lookup k params)

  abbrev number_text : Option N → Option String
  number_text none = none
  number_text (some n) = some (to_text n)

  -- The parameter of the API that each key stands for.
  abbrev filter_text : BrowseFilters N → String → Option String
  filter_text filters k =
      if "search" == k
      then filters.search
      else if "category" == k
      then filters.category
      else if "condition" == k
      then filters.condition
      else if "min_price" == k
      then number_text filters.min_price
      else if "max_price" == k
      then number_text filters.max_price
      else if "page" == k
      then number_text filters.page
      else if "page_size" == k
      then number_text filters.page_size
      else none

  module _ (filters : BrowseFilters N) where
    abbrev Says : String → Type 0
    Says k = first (last_text k (browse_entries filters)) none ≡ filter_text filters k

    at_search : Says "search"
    at_search = ground arith

    at_category : Says "category"
    at_category = ground arith

    at_condition : Says "condition"
    at_condition = ground arith

    at_min_price : Says "min_price"
    at_min_price = ground arith

    at_max_price : Says "max_price"
    at_max_price = ground arith

    at_page : Says "page"
    at_page = ground arith

    at_page_size : Says "page_size"
    at_page_size = ground arith

    at_every : (k : String) → Says k
    at_every k = split_on "search" k Says at_search (λ a.
        split_on "category" k Says at_category (λ b. split_on "condition" k Says at_condition (λ c.
          split_on "min_price" k Says at_min_price (λ d.
            split_on "max_price" k Says at_max_price (λ e. split_on "page" k Says at_page (λ f.
              split_on "page_size" k Says at_page_size (λ g. rw (a, b, c, d, e, f, g) refl)))))))

  -- The URL of a browse request has, under each of the seven names of the API, the text of that filter, no entry where
  -- the filter is undefined, and no entry under any other name.
  pub lookup-search_params :
      (filters : BrowseFilters N) (k : String)
      → lookup k (search_params to_text (browse_entries filters)) ≡ filter_text filters k
  unfolding search_params
  lookup-search_params filters k =
      lookup-set_params k (browse_entries filters) [] ∙ at_every filters k
