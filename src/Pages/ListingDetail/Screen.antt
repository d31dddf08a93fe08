-- ===== src/Pages/ListingDetail/Screen.antt =====
-- What frontend/src/pages/ListingDetailPage.tsx renders beside the photos.
use punah_pustak.Common.{
  ℕ, String, false, ◌&&◌, ◌===◌, Option, none, some, List, [], ◌∷◌, ◌++◌, is_some, truthy,
  truthy_option, or_else, if◌then◌else◌, lookup, length,
}
use punah_pustak.Auth.{AuthState}
use punah_pustak.Js.{Numbers, ◌⧺◌}
use punah_pustak.Listings.{
  Listing, ListingImage, status_label, is_available, is_sold, category_labels, category_value,
  condition_description,
}
use punah_pustak.Listings.Labels.{condition_meter}
use punah_pustak.Listings.Formats.{Dates, format_price}
use punah_pustak.Ui.View.{View, heading, text, counts, button, link, when}
use punah_pustak.Ui.Parts.{loading_button, error_alert, modal}
use punah_pustak.Pages.ListingDetail.{
  Detail, DetailEvent, edit_press, sold_open, sold_close, sold_press, delete_open, delete_close,
  delete_press, is_owner, can_edit,
}

abbrev category_label : Listing → String
category_label l = or_else (lookup (category_value l.category) category_labels) ""

abbrev breadcrumb : Listing → View DetailEvent
breadcrumb l =
    link "/listings" "Browse"
    ∷ link ("/listings?category=" ⧺ category_value l.category) (category_label l)
    ∷ []

-- `prefix`, the day and `suffix`, or nothing without a day
abbrev with_day : (String → String) → (prefix : String) → Option String → String
with_day day prefix none = ""
with_day day prefix (some d) = if truthy d then prefix ⧺ day d else ""

unfoldable pub status_line : Dates → AuthState → Listing → View DetailEvent
status_line dates auth l =
    if is_owner auth l
    then text (
        "Status: "
        ⧺ status_label l.status
        ⧺ (if is_sold l.status then with_day dates.format_day " · " l.sold_at else ""))
      ∷ []
    else when (is_sold l.status)
        (text ("This copy has been sold" ⧺ with_day dates.format_day " on " l.sold_at ⧺ ".") ∷ [])

unfoldable pub price_line : Numbers → Listing → View DetailEvent
price_line js l =
    if is_available l.status
    then text (format_price js l.price) ∷ []
    else text ("Listed at " ⧺ format_price js l.price) ∷ []

-- `{count} {count === 1 ? one : many}`
abbrev counted : ℕ → (one many : String) → View DetailEvent
counted n one many = counts (if n === 1 then "{} " ⧺ one else "{} " ⧺ many) (n ∷ []) ∷ []

abbrev active_count : Option ℕ → View DetailEvent
active_count none = []
active_count (some n) = counted n "active listing" "active listings"

abbrev member_since : Dates → Option String → View DetailEvent
member_since dates none = []
member_since dates (some d) = when (truthy d) (text ("Member since " ⧺ dates.format_month d) ∷ [])

unfoldable pub seller_section : Dates → Listing → View DetailEvent
seller_section dates l =
    heading "Passed on by"
    ∷ text l.seller_display_name
    ∷ (member_since dates l.seller_member_since
        ++ (when (truthy_option l.seller_member_since && is_some l.seller_active_listings_count)
              (text "·" ∷ [])
            ++ active_count l.seller_active_listings_count))

unfoldable pub actions : AuthState → Listing → View DetailEvent
actions auth l =
    if is_owner auth l
    then when (can_edit auth l) (button "Edit" false (edit_press l.id) ∷ [])
      ++ (when (can_edit auth l) (button "Mark as sold" false sold_open ∷ [])
          ++ (button "Delete" false delete_open ∷ []))
    else text
        "Punah-Pustak doesn't connect buyers and sellers yet. There's no messaging or checkout on the site."
      ∷ []

abbrev photo_count : List ListingImage → View DetailEvent
photo_count [] = text "no photo" ∷ []
photo_count (i ∷ is) = counted (length (i ∷ is)) "photo" "photos"

unfoldable pub record_line : Dates → Listing → View DetailEvent
record_line dates l =
    text ("Listed " ⧺ dates.format_day l.created_at ⧺ " · " ⧺ category_label l ⧺ " · ")
    ∷ photo_count l.images

-- The record column, with the breadcrumb above it.
unfoldable pub record_column : Numbers → Dates → AuthState → Listing → View DetailEvent
unfolding status_line price_line seller_section actions record_line
record_column js dates auth l =
    breadcrumb l
    ++ (status_line dates auth l
        ++ (heading l.title
            ∷ text l.author
            ∷ (price_line js l
                ++ (text "Condition: "
                    ∷ text (condition_meter l.condition).word
                    ∷ text (condition_description l.condition)
                    ∷ heading "Seller's note"
                    ∷ text l.description
                    ∷ (seller_section dates l ++ (actions auth l ++ record_line dates l))))))

unfoldable pub sold_modal : Detail → View DetailEvent
unfolding modal
sold_modal s = modal s.confirming_sold sold_close "Mark this listing as sold?" (
    text "It will be removed from public browse results but remain visible on My Listings."
    ∷ (error_alert s.action_error
        ++ (button "Cancel" false sold_close
            ∷ loading_button "Mark as sold" false s.is_marking sold_press
            ∷ [])))

unfoldable pub delete_modal : Detail → View DetailEvent
unfolding modal
delete_modal s = modal s.confirming_delete delete_close "Delete this listing?" (
    text "It will no longer appear in public browse or search. This cannot be undone from here."
    ∷ (error_alert s.action_error
        ++ (button "Cancel" false delete_close
            ∷ loading_button "Delete" false s.is_deleting delete_press
            ∷ [])))
