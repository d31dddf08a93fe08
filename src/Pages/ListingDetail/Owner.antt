-- ===== src/Pages/ListingDetail/Owner.antt =====
-- Who may act on a listing, and how the outcome shows.
use punah_pustak.Common.{true, false, [], ◌∷◌, ◌≡◌, ◌↔◌, refl, truthy, arith, eq_iff}
use punah_pustak.Auth.{
  AuthState, loading, unauthenticated, authenticated, password_change_required, threw,
}
use punah_pustak.Api.Errors.{Thrown}
use punah_pustak.Listings.{Listing, Status, available, sold, deleted, is_available}
use punah_pustak.Ui.FormErrors.{get_error_message}
use punah_pustak.Ui.View.{text, alert, heading, button, dismiss, Offers}
use punah_pustak.Pages.ListingDetail.{
  Detail, DetailEvent, edit_press, sold_open, delete_open, delete_close, delete_press, delete_reply,
  is_owner, can_edit, update, deleted_listing,
}
use punah_pustak.Pages.ListingDetail.Screen.{actions, delete_modal}

-- The listing is this visitor's own.
abbrev pub Owns : AuthState → Listing → Type 0
Owns (authenticated u) l = u.id ≡ l.owner_id
Owns loading l = ⊥
Owns unauthenticated l = ⊥
Owns password_change_required l = ⊥

-- What this visitor may start on this listing: its owner may delete it, and edit it or mark it as sold while it is
-- available.
abbrev pub Permitted : AuthState → Listing → DetailEvent → Type 0
Permitted auth l (edit_press id) = Owns auth l × (l.status ≡ available) × (l.id ≡ id)
Permitted auth l sold_open = Owns auth l × (l.status ≡ available)
Permitted auth l delete_open = Owns auth l
Permitted auth l _ = ⊥

is_owner-Owns : (auth : AuthState) (l : Listing) → (is_owner auth l ≡ true) ↔ Owns auth l
unfolding is_owner
is_owner-Owns (authenticated u) l = eq_iff u.id l.owner_id
is_owner-Owns loading l = ground arith
is_owner-Owns unauthenticated l = ground arith
is_owner-Owns password_change_required l = ground arith

is_available_iff : (s : Status) → (is_available s ≡ true) ↔ (s ≡ available)
is_available_iff available = ground arith
is_available_iff sold = ground arith
is_available_iff deleted = ground arith

pub can_edit-Owns :
    (auth : AuthState) (l : Listing)
    → (can_edit auth l ≡ true) ↔ (Owns auth l × (l.status ≡ available))
unfolding can_edit
can_edit-Owns auth l = ground (arith, is_owner-Owns auth l, is_available_iff l.status)

-- The buttons are exactly these, for every visitor and every listing: for its owner, Delete, and while it is
-- available also Edit, which leads to this listing, and Mark as sold; for everyone else none.
pub actions-Permitted :
    (auth : AuthState) (l : Listing) (e : DetailEvent)
    → Offers e (actions auth l) ↔ Permitted auth l e
unfolding actions can_edit
actions-Permitted auth l (edit_press id) =
    ground (arith, is_owner-Owns auth l, is_available_iff l.status)
actions-Permitted auth l sold_open = ground (arith, is_owner-Owns auth l, is_available_iff l.status)
actions-Permitted auth l delete_open = ground (arith, is_owner-Owns auth l)
actions-Permitted auth l _ = ground arith

-- A deletion that fails with a message leaves the dialog open, with that message in it and its button enabled again,
-- and goes nowhere.
pub failed_delete_shown :
    (s : Detail) (t : Thrown)
    → s.confirming_delete ≡ true
    → truthy (get_error_message t) ≡ true
    → let s' = update s (delete_reply (threw t)) in
      (delete_modal s'
        ≡ dismiss delete_close
          ∷ heading "Delete this listing?"
          ∷ text
              "It will no longer appear in public browse or search. This cannot be undone from here."
          ∷ alert (get_error_message t)
          ∷ button "Cancel" false delete_close
          ∷ button "Delete" false delete_press
          ∷ [])
      × (s'.navigations ≡ s.navigations)
unfolding update deleted_listing delete_modal punah_pustak.Ui.Parts.modal
failed_delete_shown s t o m = (rw (o, m) refl, refl)
