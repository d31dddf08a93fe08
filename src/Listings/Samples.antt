-- ===== src/Listings/Samples.antt =====
-- A listing for the tests of the pages.
use punah_pustak.Common.{[], none}
use punah_pustak.Listings.{Listing, Status, fiction, good}

abbrev pub book : Status → Listing
book status = record {
  id = "l1";
  owner_id = "u1";
  title = "Dune";
  author = "Herbert";
  description = "";
  category = fiction;
  condition = good;
  price = "5";
  status = status;
  images = [];
  seller_display_name = "Asha";
  seller_member_since = none;
  seller_active_listings_count = none;
  created_at = "2026-01-01";
  updated_at = "2026-01-01";
  sold_at = none;
}
