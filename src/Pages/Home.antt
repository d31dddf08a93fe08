-- ===== src/Pages/Home.antt =====
-- frontend/src/pages/HomePage.tsx: the search, the shelves and what the page renders. Which of the newest copies are
-- hidden at which width is a matter of styles.
--
-- Encoding a text for a URL and reading the query of a URL are the browser's: they are the fields of `Urls`, with what
-- is documented of a query of one entry.
pub mod Links
mod Tests
use punah_pustak.Common.{
  ℕ, leb, ◌===◌, String, Bool, true, false, not, ◌&&◌, ◌||◌, Option, none, some, List, [], ◌∷◌,
  ◌++◌, Dict, truthy, if◌then◌else◌, is_some, ◌≡◌, or_else, lookup,
}
use punah_pustak.Api.Errors.{Thrown}
use punah_pustak.Js.{Numbers, trim, ◌⧺◌}
use punah_pustak.Listings.{
  Listing, ListingImage, Category, Condition, category_value, condition_value, category_labels,
  fiction, non_fiction, academic_textbook, children, comics_graphic_novels, other,
}
use punah_pustak.Listings.Labels.{condition_meter}
use punah_pustak.Listings.Formats.{Dates, format_price}
use punah_pustak.Ui.View.{View, Item, heading, text, counts, status, link, field, button, when}
use punah_pustak.Ui.Parts.{query_state}
use punah_pustak.Ui.PhotoFrame.{Frame, thumb, photo_frame}
use punah_pustak.Ui.ListingCard.{listing_card, default_options, first_photo, has_photo}
use punah_pustak.Pages.Browse.{BrowseFilters}

pub record Urls : Type 0 where
  pub encode : String → String
  pub params_of : String → Dict String
  pub no_query : params_of "/listings" ≡ []
  pub at_search : (s : String) → params_of ("/listings?search=" ⧺ encode s) ≡ ("search", s) ∷ []
  pub at_category :
      (c : Category)
      → params_of ("/listings?category=" ⧺ category_value c) ≡ ("category", category_value c) ∷ []
  pub at_condition :
      (c : Condition)
      → params_of ("/listings?condition=" ⧺ condition_value c)
        ≡ ("condition", condition_value c) ∷ []
  pub at_max_price : params_of "/listings?max_price=4.99" ≡ ("max_price", "4.99") ∷ []

abbrev pub just_in_count : ℕ
just_in_count = 10

abbrev pub list_count : ℕ
list_count = 5

-- An entry of `INDEX_LISTS`, without the id of its heading. The number 4.99 is what `Number` makes of its text.
pub record IndexList (js : Numbers) : Type 0 where
  pub title : String
  pub query : String
  pub max_price : Option js.Number
  pub condition : Option String
  pub category : Option String
  pub href : String

module _ (js : Numbers) where
  abbrev pub under_5 : IndexList js
  under_5 = record {
    title = "Under $5";
    query = "price under $5";
    max_price = some (js.number "4.99");
    condition = none;
    category = none;
    href = "/listings?max_price=4.99";
  }

  abbrev pub barely_read : IndexList js
  barely_read = record {
    title = "Barely read";
    query = "condition: like new";
    max_price = none;
    condition = some "like_new";
    category = none;
    href = "/listings?condition=like_new";
  }

  abbrev pub textbooks : IndexList js
  textbooks = record {
    title = "Textbooks";
    query = "category: academic textbook";
    max_price = none;
    condition = none;
    category = some "academic_textbook";
    href = "/listings?category=academic_textbook";
  }

  abbrev pub index_lists : List (IndexList js)
  index_lists = under_5 ∷ barely_read ∷ textbooks ∷ []

  -- The argument of `useBrowseListings` in `IndexListSection`.
  unfoldable pub shelf_query : IndexList js → BrowseFilters js
  shelf_query l = record {
    search = none;
    category = l.category;
    condition = l.condition;
    min_price = none;
    max_price = l.max_price;
    page = 1;
    page_size = list_count;
  }

abbrev pub category_href : Category → String
category_href c = "/listings?category=" ⧺ category_value c

-- Where `handleSearch` navigates to.
unfoldable pub handle_search : (encode : String → String) → String → String
handle_search encode search =
    let trimmed = trim search in
    if truthy trimmed then "/listings?search=" ⧺ encode trimmed else "/listings"

pub data HomeEvent : Type 0 where
  search_change : String → HomeEvent
  search_submit : HomeEvent

-- A query of listings: `isPending`, `error`, and the items with their total.
pub record Shelf : Type 0 where
  pub is_pending : Bool
  pub error : Option Thrown
  pub result : Option (List Listing × ℕ)

abbrev pub items_of : Option (List Listing × ℕ) → List Listing
items_of none = []
items_of (some (items, _)) = items

abbrev pub total_of : Option (List Listing × ℕ) → ℕ
total_of none = 0
total_of (some (_, total)) = total

-- `query.data !== undefined && items.length === 0`
abbrev pub nothing_listed : Option (List Listing × ℕ) → Bool
nothing_listed none = false
nothing_listed (some ([], _)) = true
nothing_listed (some (_ ∷ _, _)) = false

abbrev categories : List Category
categories =
    fiction ∷ non_fiction ∷ academic_textbook ∷ children ∷ comics_graphic_novels ∷ other ∷ []

abbrev section_head : (title : String) → View HomeEvent → View HomeEvent → View HomeEvent
section_head title link_part query = heading title ∷ (link_part ++ query)

module _ (js : Numbers) (dates : Dates) (photo : String → Frame) where
  -- `items[0]` is there when the total is positive; the source would throw otherwise.
  abbrev newest_line : List Listing → ℕ → View HomeEvent
  newest_line [] total = []
  newest_line (l ∷ _) total = when (not (total === 0)) (
      counts (if total === 1 then "{} copy on offer" else "{} copies on offer") (total ∷ [])
      ∷ text ("newest listed " ⧺ dates.format_day l.created_at)
      ∷ [])

  abbrev cards : List Listing → View HomeEvent
  cards [] = []
  cards (l ∷ ls) = listing_card js default_options (photo l.id) l ++ cards ls

  abbrev first_book : View HomeEvent
  first_book = text "Nothing is listed yet." ∷ link "/listings/new" "List the first book" ∷ []

  abbrev just_in : Shelf → View HomeEvent
  just_in q =
      section_head "Just in"
        (when (not (nothing_listed q.result)) (link "/listings" "Browse all" ∷ []))
        (when (not (total_of q.result === 0)) (text "newest first" ∷ []))
      ++ query_state q.is_pending q.error false (status "Loading" ∷ []) []
          (if nothing_listed q.result then first_book else cards (items_of q.result))

  unfoldable pub index_row : Listing → View HomeEvent
  index_row l =
      link ("/listings/" ⧺ l.id) l.title
      ∷ (photo_frame (photo l.id) thumb false (first_photo "" l.images)
          ++ (text l.title
              ∷ text l.author
              ∷ text (format_price js l.price)
              ∷ text "Condition: "
              ∷ text (condition_meter l.condition).word
              ∷ (when (not (has_photo l.images)) (text ", no photo yet" ∷ [])
                  ++ (text (", from " ⧺ l.seller_display_name) ∷ []))))

  abbrev index_rows : List Listing → View HomeEvent
  index_rows [] = []
  index_rows (l ∷ ls) = index_row l ++ index_rows ls

  -- The label of the link, which holds the total and the title in lower case, is split in two items.
  abbrev shelf_contents : IndexList js → List Listing → ℕ → View HomeEvent
  shelf_contents list [] total = []
  shelf_contents list (l ∷ ls) total =
      heading list.title
      ∷ link list.href ("All " ⧺ list.title)
      ∷ counts "All {}" (total ∷ [])
      ∷ text list.query
      ∷ index_rows (l ∷ ls)

  -- `IndexListSection`, hidden while its query is pending, and when it fails or finds nothing.
  unfoldable pub index_list_section : IndexList js → Shelf → View HomeEvent
  unfolding index_row
  index_list_section list q =
      when (not (q.is_pending || is_some q.error))
        (shelf_contents list (items_of q.result) (total_of q.result))

  abbrev category_links : List Category → View HomeEvent
  category_links [] = []
  category_links (c ∷ cs) =
      link (category_href c) (or_else (lookup (category_value c) category_labels) "")
      ∷ category_links cs

  abbrev shelves : (IndexList js → Shelf) → List (IndexList js) → View HomeEvent
  shelves of [] = []
  shelves of (l ∷ ls) = index_list_section l (of l) ++ shelves of ls

  unfoldable pub home_page : (search : String) → Shelf → (IndexList js → Shelf) → View HomeEvent
  unfolding index_list_section
  home_page search newest of =
      heading "Second-hand books, examined and passed on by readers."
      ∷ field "Search books" search none search_change
      ∷ button "Search" false search_submit
      ∷ (newest_line (items_of newest.result) (total_of newest.result)
          ++ (just_in newest
              ++ (when (not (nothing_listed newest.result || is_some newest.error))
                    (shelves of (index_lists js))
                  ++ (heading "By category"
                      ∷ (category_links categories
                          ++ (heading "Finished with a book?"
                              ∷ text
                                  "Photograph your copy as it is, say what wear it has, and set a price. Exchange happens between you and the buyer, off-site: Punah-Pustak doesn't handle payment or delivery."
                              ∷ link "/listings/new" "List a copy"
                              ∷ []))))))
