-- ===== src/Pages/AdminListings.antt =====
-- frontend/src/pages/admin/AdminListingsPage.tsx: every listing in every status, filtered, and its
-- removal with a reason. The handler is cut at its `await`; a disabled or loading button takes no
-- event.
pub mod Screen
pub mod Removal
mod Tests
use punah_pustak.Common.{
  ℕ, String, Bool, true, false, not, ◌||◌, Option, none, some, List, [], ◌∷◌, truthy, if◌then◌else◌,
}
use punah_pustak.Auth.{Reply, value, threw}
use punah_pustak.Js.{trim}
use punah_pustak.Listings.{Listing, Status}
use punah_pustak.Ui.FormErrors.{get_error_message}

abbrev pub page_size : ℕ
page_size = 20

pub record RemoveRequest : Type 0 where
  pub listing_id : String
  pub reason_code : String

-- `status` is `none` where the source has `""`. `requests` is newest first.
pub record AdminListings : Type 0 where
  pub status : Option Status
  pub page : ℕ
  pub remove_target : Option Listing
  pub reason_code : String
  pub action_error : Option String
  pub is_removing : Bool
  pub requests : List RemoveRequest

pub data AdminListingsEvent : Type 0 where
  -- the filter: `none` is "all"
  status_change : Option Status → AdminListingsEvent
  set_page : ℕ → AdminListingsEvent
  remove_open : Listing → AdminListingsEvent
  remove_close : AdminListingsEvent
  reason_change : String → AdminListingsEvent
  remove_press : AdminListingsEvent
  remove_reply : Reply (Unit {0}) → AdminListingsEvent

unfoldable pub initial : AdminListings
initial = record {
  status = none;
  page = 1;
  remove_target = none;
  reason_code = "";
  action_error = none;
  is_removing = false;
  requests = [];
}

abbrev pub cannot_remove : AdminListings → Bool
cannot_remove s = not (truthy (trim s.reason_code)) || s.is_removing

-- `handleRemove` up to its `await`.
unfoldable pub handle_remove : Option Listing → AdminListings → AdminListings
handle_remove none s = s
handle_remove (some l) s = record s {
  action_error = none;
  is_removing = true;
  requests = record { listing_id = l.id; reason_code = s.reason_code } ∷ s.requests;
}

unfoldable pub removed : Reply (Unit {0}) → AdminListings → AdminListings
removed (value _) s = record s { is_removing = false; remove_target = none; reason_code = "" }
removed (threw t) s = record s { is_removing = false; action_error = some (get_error_message t) }

unfoldable pub update : AdminListings → AdminListingsEvent → AdminListings
unfolding handle_remove removed
update s (status_change o) = record s { status = o; page = 1 }
update s (set_page n) = record s { page = n }
update s (remove_open l) = record s { action_error = none; remove_target = some l }
update s remove_close = record s { remove_target = none }
update s (reason_change r) = record s { reason_code = r }
update s remove_press = if cannot_remove s then s else handle_remove s.remove_target s
update s (remove_reply r) = removed r s

unfoldable pub run : AdminListings → List AdminListingsEvent → AdminListings
run s [] = s
run s (e ∷ es) = run (update s e) es
