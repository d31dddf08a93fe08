-- ===== src/Pages/ListingDetail/Photos.antt =====
-- `Photos`, `ContactStrip`, `SwipeStrip` and `Lightbox` of frontend/src/pages/ListingDetailPage.tsx:
-- which photo is shown, large, in the strip and in the lightbox.
pub mod Bounds
pub mod Offers
use punah_pustak.Common.{
  ℕ, zero, suc, ◌+◌, ◌-◌, ◌%◌, min, ltb, ◌===◌, String, Bool, true, false, Option, none, some, List,
  [], ◌∷◌, ◌++◌, length, get_elem?, if◌then◌else◌,
}
use punah_pustak.Js.{◌⧺◌}
use punah_pustak.Listings.{Listing, ListingImage}
use punah_pustak.Ui.View.{View, Item, heading, text, counts, image, button, dismiss, choice, when}

pub record Photos : Type 0 where
  pub active : ℕ
  pub lightbox_index : Option ℕ
  -- of the `SwipeStrip`
  pub current : ℕ

pub data Key : Type 0 where
  arrow_left arrow_right : Key

pub data PhotoEvent : Type 0 where
  select : ℕ → PhotoEvent
  -- `setLightboxIndex` with an index, or with `null`
  enlarge : ℕ → PhotoEvent
  close : PhotoEvent
  previous next : PhotoEvent
  key : Key → PhotoEvent
  -- the strip stands at this multiple of its width, rounded
  scroll : ℕ → PhotoEvent

unfoldable pub initial : Photos
initial = record { active = 0; lightbox_index = none; current = 0 }

-- `(index - 1 + count) % count` and `(index + 1) % count`, with a count that is not 0
unfoldable pub previous_index : (count index : ℕ) → ℕ
previous_index count index = (index + count - 1) % count

unfoldable pub next_index : (count index : ℕ) → ℕ
next_index count index = (index + 1) % count

abbrev pub moved : (ℕ → ℕ) → Option ℕ → Option ℕ
moved f none = none
moved f (some i) = some (f i)

abbrev pub on_key : ℕ → Key → ℕ → ℕ
on_key count arrow_left i = previous_index count i
on_key count arrow_right i = next_index count i

-- The listener of `keydown` is there while the lightbox is.
abbrev pub handle_key : ℕ → Key → Option ℕ → Option ℕ
handle_key count k o = if ltb count 2 then o else moved (on_key count k) o

unfoldable pub update : ℕ → Photos → PhotoEvent → Photos
unfolding previous_index next_index
update count s (select i) = record s { active = i }
update count s (enlarge i) = record s { lightbox_index = some i }
update count s close = record s { lightbox_index = none }
update count s previous = record s {
  lightbox_index = moved (previous_index count) s.lightbox_index;
}
update count s next = record s { lightbox_index = moved (next_index count) s.lightbox_index }
update count s (key k) = record s { lightbox_index = handle_key count k s.lightbox_index }
update count s (scroll i) = record s { current = i }

unfoldable pub run : ℕ → Photos → List PhotoEvent → Photos
run count s [] = s
run count s (e ∷ es) = run count (update count s e) es

abbrev pub photo_alt : Listing → String
photo_alt l = l.title ⧺ " by " ⧺ l.author ⧺ ", seller's photo {} of {}"

-- A photo with its alternative text, whose `{}`s are numbers.
abbrev pub photo : Listing → ℕ → ListingImage → View PhotoEvent
photo l i p = image p.url (photo_alt l) ∷ counts (photo_alt l) ((i + 1) ∷ length l.images ∷ []) ∷ []

-- One button of the contact strip for each photo.
abbrev pub strip_from : (count active index : ℕ) → List ListingImage → View PhotoEvent
strip_from count active index [] = []
strip_from count active index (p ∷ ps) =
    counts "Show photo {} of {}" ((index + 1) ∷ count ∷ [])
    ∷ image p.url ""
    ∷ choice "" (index === active) (select index)
    ∷ strip_from count active (suc index) ps

unfoldable pub contact_strip : List ListingImage → ℕ → View PhotoEvent
contact_strip images active = strip_from (length images) active 0 images

abbrev pub swipe_from : Listing → ℕ → List ListingImage → View PhotoEvent
swipe_from l index [] = []
swipe_from l index (p ∷ ps) =
    counts "Enlarge photo {} of {}" ((index + 1) ∷ length l.images ∷ [])
    ∷ button "" false (enlarge index)
    ∷ (photo l index p ++ swipe_from l (suc index) ps)

unfoldable pub swipe_strip : Listing → Photos → View PhotoEvent
swipe_strip l s =
    let count = length l.images in
    text (if ltb 1 count then "Seller's photos, scroll sideways for more" else "Seller's photo")
    ∷ (swipe_from l 0 l.images
        ++ (counts "{} / {}" (min (s.current + 1) count ∷ count ∷ [])
            ∷ text (if ltb 1 count then "swipe for more" else "tap to enlarge")
            ∷ []))

-- What a wide screen shows, with the photo `current`.
abbrev pub stage_view : Listing → Photos → ListingImage → View PhotoEvent
stage_view l s current =
    let count = length l.images in
    counts "Enlarge photo {} of {}" ((s.active + 1) ∷ count ∷ [])
    ∷ button "" false (enlarge s.active)
    ∷ (photo l s.active current
        ++ (counts "Photo {} of {}" ((s.active + 1) ∷ count ∷ [])
            ∷ button "Enlarge" false (enlarge s.active)
            ∷ when (ltb 1 count) (contact_strip l.images s.active)))

-- `current.id` and `current.url` are read: without a photo, rendering throws (`none`).
abbrev pub stage_photo : Listing → Photos → Option ListingImage → Option (View PhotoEvent)
stage_photo l s none = none
stage_photo l s (some current) = some (stage_view l s current)

unfoldable pub stage : Listing → Photos → Option (View PhotoEvent)
stage l s = stage_photo l s (get_elem? l.images (min s.active (length l.images - 1)))

-- `listing.images[index]` is taken for granted: without it, rendering throws (`none`).
abbrev pub lightbox_photo : Listing → ℕ → Option ListingImage → Option (View PhotoEvent)
lightbox_photo l i none = none
lightbox_photo l i (some p) =
    let count = length l.images in
    some (
      dismiss close
      ∷ counts (l.title ⧺ ", photo {} of {}") ((i + 1) ∷ count ∷ [])
      ∷ button "Close" false close
      ∷ (photo l i p
          ++ (if ltb 1 count
              then button "Previous" false previous
                ∷ counts "{} / {}" ((i + 1) ∷ count ∷ [])
                ∷ button "Next" false next
                ∷ []
              else text "1 / 1" ∷ [])))

abbrev pub lightbox : Listing → Option ℕ → Option (View PhotoEvent)
lightbox l none = some []
lightbox l (some i) = lightbox_photo l i (get_elem? l.images i)

abbrev pub append_view :
    Option (View PhotoEvent) → Option (View PhotoEvent) → Option (View PhotoEvent)
append_view none w = none
append_view (some v) none = none
append_view (some v) (some w) = some (v ++ w)

abbrev pub photos_of :
    (is_wide : Bool) → Listing → List ListingImage → Photos → Option (View PhotoEvent)
photos_of is_wide l [] s = some (text "No photo yet" ∷ [])
photos_of is_wide l (_ ∷ _) s =
    append_view (if is_wide then stage l s else some (swipe_strip l s))
      (lightbox l s.lightbox_index)

-- `Photos`: `none` when rendering throws.
unfoldable pub photos : (is_wide : Bool) → Listing → Photos → Option (View PhotoEvent)
unfolding stage swipe_strip
photos is_wide l s = photos_of is_wide l l.images s
