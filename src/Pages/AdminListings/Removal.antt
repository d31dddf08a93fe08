-- ===== src/Pages/AdminListings/Removal.antt =====
-- What is removed, and why.
use punah_pustak.Common.{
  ◌++◌, ℕ, ◌≤◌, ◌+◌, suc, Bool, true, false, Option, none, some, List, [], ◌∷◌, ◌≡◌, refl, All,
  truthy, arith, if◌then◌else◌, length,
}
use punah_pustak.Auth.{value, threw}
use punah_pustak.Js.{Numbers, trim}
use punah_pustak.Listings.{Listing, ListingImage, is_deleted}
use punah_pustak.Listings.Formats.{Dates}
use punah_pustak.Ui.View.{Allows, Allows-append, Offers, Offers-Allows}
use punah_pustak.Pages.AdminListings.{
  run, initial, RemoveRequest, AdminListings, AdminListingsEvent, status_change, set_page,
  remove_open, remove_close, reason_change, remove_press, remove_reply, cannot_remove,
  handle_remove, update,
}
use punah_pustak.Pages.AdminListings.Screen.{
  listing_facts, render_thumb, render_title, render_action, listing_row, listing_rows,
}

-- The removal that the event asks for is of a listing that is not removed.
abbrev pub IsOpen : AdminListingsEvent → Type 0
IsOpen (remove_open l) = is_deleted l.status ≡ false
IsOpen _ = Unit

thumb-Allows : (is : List ListingImage) → Allows IsOpen (render_thumb is)
thumb-Allows [] = (tt, tt)
thumb-Allows (i ∷ is) = (tt, tt)

title-Allows : (b : Bool) (l : Listing) → Allows IsOpen (render_title b l)
title-Allows true l = (tt, (tt, tt))
title-Allows false l = (tt, (tt, tt))

action-Allows : (l : Listing) → Allows IsOpen (render_action l)
unfolding render_action
action-Allows l = ground arith

module _ (js : Numbers) (dates : Dates) where
  facts-Allows : (w : Bool) (l : Listing) → Allows IsOpen (listing_facts js dates w l)
  facts-Allows true l = (tt, (tt, (tt, (tt, (tt, (tt, (tt, action-Allows l)))))))
  facts-Allows false l = (tt, (tt, (tt, (tt, (tt, (tt, (tt, (tt, action-Allows l))))))))

  row-Allows : (w : Bool) (l : Listing) → Allows IsOpen (listing_row js dates w l)
  unfolding listing_row
  row-Allows w l =
      Allows-append IsOpen (render_thumb l.images) (render_title w l ++ listing_facts js dates w l)
        (thumb-Allows l.images)
        (Allows-append IsOpen (render_title w l) (listing_facts js dates w l) (title-Allows w l)
          (facts-Allows w l))

  rows-Allows : (w : Bool) (ls : List Listing) → Allows IsOpen (listing_rows js dates w ls)
  rows-Allows w [] = tt
  rows-Allows w (l ∷ ls) = Allows-append _ _ _ (row-Allows w l) (rows-Allows w ls)

  -- The rows offer the removal of listings only that are not removed yet.
  pub removed_not_offered :
      (w : Bool) (ls : List Listing) (e : AdminListingsEvent)
      → Offers e (listing_rows js dates w ls)
      → IsOpen e
  removed_not_offered w ls e o = Offers-Allows _ e _ (rows-Allows w ls) o

abbrev pub HasReason : RemoveRequest → Type 0
HasReason r = truthy (trim r.reason_code) ≡ true

-- `n` and the answers among the events.
abbrev pub count_reply : AdminListingsEvent → ℕ → ℕ
count_reply (remove_reply _) n = suc n
count_reply _ n = n

abbrev pub count_replies : List AdminListingsEvent → ℕ → ℕ
count_replies [] n = n
count_replies (e ∷ es) n = count_replies es (count_reply e n)

abbrev pending : Bool → ℕ
pending true = 1
pending false = 0

-- Each request has a reason, and at most one of them, the newest, is still without its answer.
record IsOrderly (s : AdminListings) (answered : ℕ) : Type 0 where
  reasons : All HasReason s.requests
  sent : length s.requests ≤ answered + pending s.is_removing

press-IsOrderly :
    (o : Option Listing) (s : AdminListings) (n : ℕ)
    → cannot_remove s ≡ false
    → IsOrderly s n
    → IsOrderly (handle_remove o s) n
unfolding handle_remove
press-IsOrderly none s n e h = h
press-IsOrderly (some l) s n e h = record {
  reasons = (ground arith, h.reasons);
  sent = ground (arith, h.sent);
}

unless-IsOrderly :
    (b : Bool) (s t : AdminListings) (n : ℕ)
    → IsOrderly s n
    → (b ≡ false → IsOrderly t n)
    → IsOrderly (if b then s else t) n
unless-IsOrderly true s t n h k = h
unless-IsOrderly false s t n h k = k refl

update-IsOrderly :
    (s : AdminListings) (e : AdminListingsEvent) (n : ℕ)
    → IsOrderly s n
    → IsOrderly (update s e) (count_reply e n)
unfolding update
update-IsOrderly s remove_press n h =
    unless-IsOrderly (cannot_remove s) s _ n h (λ on. press-IsOrderly s.remove_target s n on h)
update-IsOrderly s (remove_reply (value _)) n h = record {
  reasons = h.reasons;
  sent = ground (arith, h.sent);
}
update-IsOrderly s (remove_reply (threw t)) n h = record {
  reasons = h.reasons;
  sent = ground (arith, h.sent);
}
update-IsOrderly s (status_change o) n h = record {
  reasons = h.reasons;
  sent = omega (arith, h.sent);
}
update-IsOrderly s (set_page p) n h = record { reasons = h.reasons; sent = h.sent }
update-IsOrderly s (remove_open l) n h = record {
  reasons = h.reasons;
  sent = omega (arith, h.sent);
}
update-IsOrderly s remove_close n h = record { reasons = h.reasons; sent = h.sent }
update-IsOrderly s (reason_change r) n h = record {
  reasons = h.reasons;
  sent = omega (arith, h.sent);
}

run-IsOrderly :
    (s : AdminListings) (es : List AdminListingsEvent) (n : ℕ)
    → IsOrderly s n
    → IsOrderly (run s es) (count_replies es n)
unfolding run
run-IsOrderly s [] n h = h
run-IsOrderly s (e ∷ es) n h =
    run-IsOrderly (update s e) es (count_reply e n) (update-IsOrderly s e n h)

-- Over any events on the page, every removal is sent with a reason that is not blank, and at most one more has been
-- sent than answers have come: pressing the button again while a removal is pending sends nothing.
pub removals_are_orderly :
    (es : List AdminListingsEvent)
    → All HasReason (run initial es).requests
      × (length (run initial es).requests ≤ count_replies es 0 + 1)
unfolding initial
removals_are_orderly es =
    let h = run-IsOrderly initial es 0 (record { reasons = tt; sent = omega arith }) in
    (h.reasons, ground (arith, h.sent))
