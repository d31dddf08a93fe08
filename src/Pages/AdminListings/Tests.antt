-- ===== src/Pages/AdminListings/Tests.antt =====
-- The page with a listing that is available and one that is removed.
use punah_pustak.Common.{◌≤◌, ◌+◌, String, false, List, [], ◌∷◌, ◌≡◌, refl, All, length}
use punah_pustak.Api.Errors.{other}
use punah_pustak.Auth.{threw}
use punah_pustak.Js.{Numbers, trim}
use punah_pustak.Listings.{available}
use punah_pustak.Listings.Samples.{book}
use punah_pustak.Listings.Formats.{Dates}
use punah_pustak.Pages.AdminListings.{
  AdminListingsEvent, remove_open, reason_change, remove_press, remove_reply, initial, run, update,
  handle_remove, removed,
}
use punah_pustak.Pages.AdminListings.Removal.{HasReason, count_replies, removals_are_orderly}

abbrev texts : Numbers
texts = record {
  Number = String;
  number = λ s. s;
  parse_float = λ s. s;
  is_nan = λ s. false;
  at_most_zero = λ s. false;
  to_fixed_2 = λ s. s;
}

abbrev plain_dates : Dates
plain_dates = record { format_day = λ s. s; format_month = λ s. s }

abbrev removes_twice : List AdminListingsEvent
removes_twice =
    remove_open (book available)
    ∷ remove_press
    ∷ reason_change "fake"
    ∷ remove_press
    ∷ remove_press
    ∷ remove_reply (threw other)
    ∷ remove_press
    ∷ []

two_requests : length (run initial removes_twice).requests ≡ 2
unfolding run update initial handle_remove removed trim
two_requests = refl

removals_are_orderly_example :
    All HasReason (run initial removes_twice).requests
    × (length (run initial removes_twice).requests ≤ count_replies removes_twice 0 + 1)
removals_are_orderly_example = removals_are_orderly removes_twice
