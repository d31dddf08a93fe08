-- ===== src/Api/Endpoints/Tests.antt =====
-- Requests and URLs at concrete arguments.
use punah_pustak.Common.{ℕ, zero, suc, String, true, none, some, ◌≡◌, refl, [], ◌∷◌, lookup}
use punah_pustak.Js.{◌⧺◌}
use punah_pustak.Api.Client.{may_refresh}
use punah_pustak.Api.Endpoints.{
  admin, BrowseFilters, browse_entries, search_params, suspend_user, upload_listing_images,
  listing_request, form_data,
}
use punah_pustak.Api.Endpoints.Reading.{lookup-search_params}
use punah_pustak.Api.Endpoints.Refreshing.{call_path, may_refresh-call_path}

-- Numbers written in unary.
abbrev ones : ℕ → String
ones zero = ""
ones (suc n) = "1" ⧺ ones n

abbrev second_page : BrowseFilters ℕ
second_page = record {
  search = some "a & b";
  category = none;
  condition = some "good";
  min_price = none;
  max_price = some 3;
  page = some 2;
  page_size = none;
}

its_params :
    search_params ones (browse_entries second_page)
    ≡ ("search", "a & b") ∷ ("condition", "good") ∷ ("max_price", "111") ∷ ("page", "11") ∷ []
unfolding search_params
its_params = refl

two_photos :
    (listing_request {N = ℕ} {J = ℕ} {F = String}
      (upload_listing_images "7" ("front" ∷ "back" ∷ []))).body
    ≡ form_data (("images", "front") ∷ ("images", "back") ∷ [])
unfolding listing_request
two_photos = refl

lookup-search_params_example :
    lookup "max_price" (search_params ones (browse_entries second_page)) ≡ some "111"
lookup-search_params_example = lookup-search_params ones second_page "max_price"

may_refresh-call_path_example :
    may_refresh 401 true (call_path {N = ℕ} {J = ℕ} {F = ℕ} (admin (suspend_user "7" "spam")))
    ≡ true
may_refresh-call_path_example =
    may_refresh-call_path {N = ℕ} {J = ℕ} {F = ℕ} (admin (suspend_user "7" "spam")) 401 true
