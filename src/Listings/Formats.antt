-- ===== src/Listings/Formats.antt =====
-- `formatPrice`, `formatDay`, `formatMonth` and `isSubstantiveNote` of
-- frontend/src/lib/listingLabels.ts.
use punah_pustak.Common.{String, Bool, leb, if◌then◌else◌}
use punah_pustak.Js.{Numbers, trim, utf16_length, ◌⧺◌}

-- The dates are formatted by the platform's `toLocaleDateString`, with the options of `formatDay`
-- and of `formatMonth`.
pub record Dates : Type 0 where
  pub format_day : String → String
  pub format_month : String → String

unfoldable pub format_price : Numbers → String → String
format_price js price =
    let amount = js.parse_float price in
    if js.is_nan amount then price else "$" ⧺ js.to_fixed_2 amount

unfoldable pub is_substantive_note : String → Bool
is_substantive_note description = leb 28 (utf16_length (trim description))
