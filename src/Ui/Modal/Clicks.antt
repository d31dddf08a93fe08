-- ===== src/Ui/Modal/Clicks.antt =====
-- frontend/src/components/Modal.tsx: the three variants of the dialog, and what a click on it does.
use punah_pustak.Common.{
  ℕ, suc, ◌≡◌, refl, String, Bool, true, false, List, [], ◌∷◌, ◌++◌, if◌then◌else◌,
}
use punah_pustak.Ui.View.{View, heading, button, dismiss}

pub data Variant : Type 0 where
  dialog sheet lightbox : Variant

-- Where a click lands.
pub data Target : Type 0 where
  backdrop panel caption close_button content : Target

-- The `onClick` of an element: `onClose`, or `event.stopPropagation()`.
pub data Handler : Type 0 where
  closes stops : Handler

abbrev pub has_close_button : Variant → Bool
has_close_button dialog = false
has_close_button sheet = true
has_close_button lightbox = true

abbrev pub is_rendered : Variant → Target → Bool
is_rendered lightbox backdrop = false
is_rendered v close_button = has_close_button v
is_rendered v _ = true

-- The handlers of the panel and of the backdrop around it.
abbrev around : Variant → List Handler
around lightbox = []
around dialog = stops ∷ closes ∷ []
around sheet = stops ∷ closes ∷ []

-- The handlers from where the click lands up to the root of the dialog.
unfoldable pub handlers : Variant → Target → List Handler
handlers v close_button = closes ∷ around v
handlers v backdrop = closes ∷ []
handlers v panel = around v
handlers v caption = around v
handlers v content = around v

-- How often `onClose` is called as the click bubbles up.
unfoldable pub close_calls : List Handler → ℕ
close_calls [] = 0
close_calls (stops ∷ hs) = 0
close_calls (closes ∷ hs) = suc (close_calls hs)

-- What the dialog renders; `onClose` is also the event of `Escape`.
unfoldable pub modal_view :
    {E : Type 0} → Variant → (is_open : Bool) (on_close : E) (title : String) → View E → View E
modal_view v false on_close title children = []
modal_view v true on_close title children =
    dismiss on_close
    ∷ heading title
    ∷ ((if has_close_button v then button "Close" false on_close ∷ [] else []) ++ children)

abbrev is_way_out : Target → Bool
is_way_out backdrop = true
is_way_out close_button = true
is_way_out panel = false
is_way_out caption = false
is_way_out content = false

-- In every variant a click on a part that is rendered calls `onClose` once if that part is the Close button or the
-- backdrop, and not at all if it is any other.
pub click_closes_once :
    (v : Variant) (t : Target)
    → is_rendered v t ≡ true
    → close_calls (handlers v t) ≡ (if is_way_out t then 1 else 0)
unfolding close_calls handlers
click_closes_once v backdrop h = refl
click_closes_once dialog panel h = refl
click_closes_once sheet panel h = refl
click_closes_once lightbox panel h = refl
click_closes_once dialog caption h = refl
click_closes_once sheet caption h = refl
click_closes_once lightbox caption h = refl
click_closes_once dialog content h = refl
click_closes_once sheet content h = refl
click_closes_once lightbox content h = refl
click_closes_once dialog close_button h = cc
click_closes_once sheet close_button h = refl
click_closes_once lightbox close_button h = refl
