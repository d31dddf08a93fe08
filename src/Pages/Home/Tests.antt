-- ===== src/Pages/Home/Tests.antt =====
-- A browser that reads the queries of the home page's links, and the home page's links in it.
use Prim.Native.String.{len, slice}
use package.text.Mathlib.Text.{starts_with}
use package.text.Mathlib.TextPositions.{starts_with-append, slice-append_right, len-append}
use punah_pustak.Common.{
  String, ◌==◌, ◌≡◌, refl, ap, ◌∙◌, none, some, [], ◌∷◌, Dict, if◌then◌else◌, or_else, lookup, All,
  truthy,
}
use punah_pustak.Js.{Numbers, trim, ◌⧺◌}
use punah_pustak.Listings.{
  Category, Condition, fiction, non_fiction, academic_textbook, children, comics_graphic_novels,
  other, new, like_new, good, fair, poor, category_value, condition_value,
}
use punah_pustak.Pages.Home.{Urls, handle_search, index_lists}
use punah_pustak.Pages.Home.Links.{
  opened_query, widened, only_query, shelves_open_their_query, searches_open,
}

-- Texts for numbers.
abbrev texts : Numbers
texts = record {
  Number = String;
  number = λ s. s;
  parse_float = λ s. s;
  is_nan = λ s. s == "x";
  at_most_zero = λ s. s == "0";
  to_fixed_2 = λ s. s;
}

abbrev table : Dict (Dict String)
table =
    ("/listings?category=fiction", ("category", "fiction") ∷ [])
    ∷ ("/listings?category=non_fiction", ("category", "non_fiction") ∷ [])
    ∷ ("/listings?category=academic_textbook", ("category", "academic_textbook") ∷ [])
    ∷ ("/listings?category=children", ("category", "children") ∷ [])
    ∷ ("/listings?category=comics_graphic_novels", ("category", "comics_graphic_novels") ∷ [])
    ∷ ("/listings?category=other", ("category", "other") ∷ [])
    ∷ ("/listings?condition=new", ("condition", "new") ∷ [])
    ∷ ("/listings?condition=like_new", ("condition", "like_new") ∷ [])
    ∷ ("/listings?condition=good", ("condition", "good") ∷ [])
    ∷ ("/listings?condition=fair", ("condition", "fair") ∷ [])
    ∷ ("/listings?condition=poor", ("condition", "poor") ∷ [])
    ∷ ("/listings?max_price=4.99", ("max_price", "4.99") ∷ [])
    ∷ []

abbrev search_path : String
search_path = "/listings?search="

abbrev read : String → Dict String
read url =
    if starts_with url search_path
    then ("search", slice url (len search_path) (len url)) ∷ []
    else or_else (lookup url table) []

read-search : (s : String) → read (search_path ⧺ s) ≡ ("search", s) ∷ []
read-search s = rw (starts_with-append search_path s) (
    ap (λ (v : String). ("search", v) ∷ [])
      (ap (slice (search_path ⧺ s) (len search_path)) (len-append search_path s)
        ∙ slice-append_right search_path s))

by_category :
    (c : Category)
    → read ("/listings?category=" ⧺ category_value c) ≡ ("category", category_value c) ∷ []
by_category fiction = refl
by_category non_fiction = refl
by_category academic_textbook = refl
by_category children = refl
by_category comics_graphic_novels = refl
by_category other = refl

by_condition :
    (c : Condition)
    → read ("/listings?condition=" ⧺ condition_value c) ≡ ("condition", condition_value c) ∷ []
by_condition new = refl
by_condition like_new = refl
by_condition good = refl
by_condition fair = refl
by_condition poor = refl

-- A browser that writes a text into a query as it is.
abbrev plain_urls : Urls
plain_urls = record {
  encode = λ s. s;
  params_of = read;
  no_query = refl;
  at_search = read-search;
  at_category = by_category;
  at_condition = by_condition;
  at_max_price = refl;
}

shelves_open_their_query_example :
    All (λ l. opened_query texts plain_urls l.href ≡ widened texts plain_urls l) (index_lists texts)
shelves_open_their_query_example = shelves_open_their_query texts plain_urls refl

searches_open_example :
    opened_query texts plain_urls (handle_search (λ s. s) " dune ")
    ≡ only_query texts plain_urls
        (if truthy (trim " dune ") then some (trim " dune ") else none)
        none
searches_open_example = searches_open texts plain_urls " dune "
