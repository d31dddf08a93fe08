-- ===== src/Pages/Home/Links.antt =====
-- The links and the search of the home page, against the query of the browse page that they open.
use punah_pustak.Common.{
  String, true, false, ◌≡◌, refl, Option, none, some, truthy, arith, All, if◌then◌else◌,
}
use punah_pustak.Js.{Numbers, trim, ◌⧺◌}
use punah_pustak.Listings.{
  Category, fiction, non_fiction, academic_textbook, children, comics_graphic_novels, other,
  category_value, like_new,
}
use punah_pustak.Pages.Browse
use punah_pustak.Pages.Browse.{
  BrowseFilters, mount, browse_query, optional, price_from_params, category_from_params,
  condition_from_params,
}
use punah_pustak.Pages.Home.{
  Urls, IndexList, index_lists, shelf_query, category_href, handle_search,
}

module _ (js : Numbers) (urls : Urls) where
  -- The query with which the browse page opens at a URL.
  abbrev pub opened_query : String → BrowseFilters js
  opened_query href = browse_query js (mount js (urls.params_of href))

  -- The query of a shelf, with the pages of the browse page.
  abbrev pub widened : IndexList js → BrowseFilters js
  widened l = record (shelf_query js l) { page_size = punah_pustak.Pages.Browse.page_size }

  -- Where 4.99 is a number, the link of each shelf opens the browse page with exactly the shelf's query: the same
  -- filters, on its first page, and nothing else.
  pub shelves_open_their_query :
      js.is_nan (js.number "4.99") ≡ false
      → All (λ l. opened_query l.href ≡ widened l) (index_lists js)
  unfolding browse_query mount shelf_query price_from_params category_from_params
      condition_from_params
  shelves_open_their_query n = (
    rw (urls.at_max_price, n) refl,
    (rw (urls.at_condition like_new) refl, (rw (urls.at_category academic_textbook) refl, tt)),
  )

  -- The query with one category, or with one search.
  abbrev pub only_query : (search category : Option String) → BrowseFilters js
  only_query search category = record {
    search = search;
    category = category;
    condition = none;
    min_price = none;
    max_price = none;
    page = 1;
    page_size = punah_pustak.Pages.Browse.page_size;
  }

  pub categories_open :
      (c : Category) → opened_query (category_href c) ≡ only_query none (some (category_value c))
  unfolding browse_query mount price_from_params category_from_params condition_from_params
  categories_open fiction = rw (urls.at_category fiction) refl
  categories_open non_fiction = rw (urls.at_category non_fiction) refl
  categories_open academic_textbook = rw (urls.at_category academic_textbook) refl
  categories_open children = rw (urls.at_category children) refl
  categories_open comics_graphic_novels = rw (urls.at_category comics_graphic_novels) refl
  categories_open other = rw (urls.at_category other) refl

  search_opens :
      (t : String)
      → opened_query (if truthy t then "/listings?search=" ⧺ urls.encode t else "/listings")
        ≡ only_query (if truthy t then some t else none) none
  unfolding browse_query mount price_from_params category_from_params condition_from_params
  search_opens t =
      elim (truthy t)
          as (λ b.
            truthy t ≡ b
            → opened_query (if truthy t then "/listings?search=" ⧺ urls.encode t else "/listings")
              ≡ only_query (if truthy t then some t else none) none) [
                | true ↦ λ e. rw (e, urls.at_search t) (ground arith)
                | false ↦ λ e. rw (e, urls.no_query) refl
              ]
        refl

  -- Whatever is typed into the search of the home page, submitting it opens the browse page with a search for exactly
  -- the text without the white space around it, or, where nothing else was typed, with no filter at all.
  pub searches_open :
      (typed : String)
      → opened_query (handle_search urls.encode typed)
        ≡ only_query (if truthy (trim typed) then some (trim typed) else none) none
  unfolding handle_search
  searches_open typed = search_opens (trim typed)
