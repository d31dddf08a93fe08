-- ===== src/Pages/ListingDetail.antt =====
-- frontend/src/pages/ListingDetailPage.tsx: one listing, its owner's actions, and its photos. The two
-- handlers are cut at their `await`; a loading button takes no event.
pub mod Screen
pub mod Photos
pub mod Owner
pub mod Whole
mod Tests
use punah_pustak.Common.{
  ℕ, String, Bool, true, false, ◌&&◌, ◌==◌, Option, none, some, List, [], ◌∷◌, if◌then◌else◌,
}
use punah_pustak.Auth.{
  AuthState, loading, unauthenticated, password_change_required, authenticated, Reply, value, threw,
}
use punah_pustak.Js.{◌⧺◌}
use punah_pustak.Listings.{Listing, is_available}
use punah_pustak.Ui.FormErrors.{get_error_message}

pub data DetailRequest : Type 0 where
  sold_request : DetailRequest
  delete_request : DetailRequest

-- `isPending` of the two mutations; `requests` and `navigations` are newest first.
pub record Detail : Type 0 where
  pub confirming_sold : Bool
  pub confirming_delete : Bool
  pub action_error : Option String
  pub is_marking : Bool
  pub is_deleting : Bool
  pub requests : List DetailRequest
  pub navigations : List String

pub data DetailEvent : Type 0 where
  -- the id of the listing
  edit_press : String → DetailEvent
  sold_open : DetailEvent
  sold_close : DetailEvent
  sold_press : DetailEvent
  sold_reply : Reply (Unit {0}) → DetailEvent
  delete_open : DetailEvent
  delete_close : DetailEvent
  delete_press : DetailEvent
  delete_reply : Reply (Unit {0}) → DetailEvent

unfoldable pub initial : Detail
initial = record {
  confirming_sold = false;
  confirming_delete = false;
  action_error = none;
  is_marking = false;
  is_deleting = false;
  requests = [];
  navigations = [];
}

-- `handleMarkSold` up to its `await`, and after it.
unfoldable pub handle_mark_sold : Detail → Detail
handle_mark_sold s = record s {
  action_error = none;
  is_marking = true;
  requests = sold_request ∷ s.requests;
}

unfoldable pub marked_sold : Reply (Unit {0}) → Detail → Detail
marked_sold (value _) s = record s { is_marking = false; confirming_sold = false }
marked_sold (threw t) s = record s { is_marking = false; action_error = some (get_error_message t) }

-- `handleDelete` up to its `await`, and after it.
unfoldable pub handle_delete : Detail → Detail
handle_delete s = record s {
  action_error = none;
  is_deleting = true;
  requests = delete_request ∷ s.requests;
}

unfoldable pub deleted_listing : Reply (Unit {0}) → Detail → Detail
deleted_listing (value _) s = record s {
  is_deleting = false;
  confirming_delete = false;
  navigations = "/my-listings" ∷ s.navigations;
}
deleted_listing (threw t) s = record s {
  is_deleting = false;
  action_error = some (get_error_message t);
}

unfoldable pub update : Detail → DetailEvent → Detail
unfolding handle_mark_sold marked_sold handle_delete deleted_listing
update s (edit_press id) = record s { navigations = ("/listings/" ⧺ id ⧺ "/edit") ∷ s.navigations }
update s sold_open = record s { action_error = none; confirming_sold = true }
update s sold_close = record s { confirming_sold = false }
update s sold_press = if s.is_marking then s else handle_mark_sold s
update s (sold_reply r) = marked_sold r s
update s delete_open = record s { action_error = none; confirming_delete = true }
update s delete_close = record s { confirming_delete = false }
update s delete_press = if s.is_deleting then s else handle_delete s
update s (delete_reply r) = deleted_listing r s

unfoldable pub run : Detail → List DetailEvent → Detail
run s [] = s
run s (e ∷ es) = run (update s e) es

unfoldable pub is_owner : AuthState → Listing → Bool
is_owner (authenticated u) l = u.id == l.owner_id
is_owner loading l = false
is_owner unauthenticated l = false
is_owner password_change_required l = false

unfoldable pub can_edit : AuthState → Listing → Bool
unfolding is_owner
can_edit auth l = is_owner auth l && is_available l.status
