-- ===== src/Pages/ListingDetail/Photos/Bounds.antt =====
-- The photo that is shown is always there.
use punah_pustak.Common.{
  ap, ◌∙◌, ◌⊎◌, inl, inr, ℕ, zero, suc, ◌+◌, ◌-◌, ◌%◌, ◌<◌, ltb, min, Bool, true, false, Option,
  none, some, List, [], ◌∷◌, ◌≡◌, refl, length, get_elem?, if◌then◌else◌, arith, All, is_some,
}
use native.Mathlib.Nat.{mod-lt, mod-eq_of_lt, mod_self, add-mod_right}
use punah_pustak.Ui.View.{View}
use punah_pustak.Listings.{Listing, ListingImage}
use punah_pustak.Pages.ListingDetail.Photos.{
  run, moved, on_key, lightbox_photo, append_view, photos_of, stage_photo, Photos, Key, arrow_left,
  arrow_right, PhotoEvent, select, enlarge, close, previous, next, key, scroll, initial,
  previous_index, next_index, update, photos, lightbox, stage,
}

next_index-below : (count i : ℕ) → i + 1 < count → next_index count i ≡ suc i
unfolding next_index
next_index-below count i h = mod-eq_of_lt h ∙ omega arith

next_index-last : (count i : ℕ) → i + 1 ≡ count → next_index count i ≡ 0
unfolding next_index
next_index-last count i h = rw h (mod_self count)

previous_index-first : (count : ℕ) → 0 < count → previous_index count 0 ≡ count - 1
unfolding previous_index
previous_index-first count h =
    ap (λ n. n % count) {x = 0 + count - 1} {y = count - 1} (omega arith)
    ∙ mod-eq_of_lt (omega arith)

previous_index-later : (count i : ℕ) → i < count → previous_index count (suc i) ≡ i
unfolding previous_index
previous_index-later count i h =
    ap (λ n. n % count) {x = suc i + count - 1} {y = i + count} (omega arith)
    ∙ add-mod_right i count
    ∙ mod-eq_of_lt h

-- `i + 1` is below the count, or `i` is the last.
next_cases : (count i : ℕ) → i < count → (i + 1 < count) ⊎ (i + 1 ≡ count)
next_cases count i h = ground arith

previous_next' : (count i : ℕ) → i < count → previous_index count (next_index count i) ≡ i
previous_next' count i h = elim (next_cases count i h) [
  | inl below ↦ rw (next_index-below count i below) (previous_index-later count i h)
  | inr last ↦
      rw (next_index-last count i last) (previous_index-first count (omega arith) ∙ omega arith)
]

next_previous : (count i : ℕ) → i < count → next_index count (previous_index count i) ≡ i
next_previous count zero h =
    rw (previous_index-first count h) (next_index-last count (count - 1) (omega arith))
next_previous count (suc i) h =
    rw (previous_index-later count i (omega arith)) (next_index-below count i (omega arith))

-- In the lightbox, next and previous undo each other and stay among the photos.
pub previous_next :
    (count i : ℕ)
    → i < count
    → (previous_index count (next_index count i) ≡ i)
      × (next_index count (previous_index count i) ≡ i)
      × (next_index count i < count)
      × (previous_index count i < count)
previous_next count i h = (
  previous_next' count i h,
  next_previous count i h,
  unfold next_index in mod-lt (i + 1) (omega arith),
  unfold previous_index in mod-lt (i + count - 1) (omega arith),
)

-- The index that the event carries is that of a photo.
abbrev pub InPhotos : ℕ → PhotoEvent → Type 0
InPhotos count (select i) = i < count
InPhotos count (enlarge i) = i < count
InPhotos count _ = Unit

abbrev IsBelow : ℕ → Option ℕ → Type 0
IsBelow count none = Unit
IsBelow count (some i) = i < count

moved-IsBelow :
    (count : ℕ) (f : ℕ → ℕ) (o : Option ℕ)
    → ((i : ℕ) → i < count → f i < count)
    → IsBelow count o
    → IsBelow count (moved f o)
moved-IsBelow count f none k h = tt
moved-IsBelow count f (some i) k h = k i h

next-IsBelow : (count i : ℕ) → i < count → next_index count i < count
next-IsBelow count i h = (previous_next count i h).2

previous-IsBelow : (count i : ℕ) → i < count → previous_index count i < count
previous-IsBelow count i h = (previous_next count i h).3

on_key-IsBelow : (count : ℕ) (k : Key) (i : ℕ) → i < count → on_key count k i < count
on_key-IsBelow count arrow_left i h = previous-IsBelow count i h
on_key-IsBelow count arrow_right i h = next-IsBelow count i h

unless-IsBelow :
    (b : Bool) (count : ℕ) (o o' : Option ℕ)
    → IsBelow count o
    → IsBelow count o'
    → IsBelow count (if b then o else o')
unless-IsBelow true count o o' h k = h
unless-IsBelow false count o o' h k = k

update-IsBelow :
    (count : ℕ) (s : Photos) (e : PhotoEvent)
    → InPhotos count e
    → IsBelow count s.lightbox_index
    → IsBelow count (update count s e).lightbox_index
unfolding update
update-IsBelow count s (select i) p h = h
update-IsBelow count s (enlarge i) p h = p
update-IsBelow count s close p h = tt
update-IsBelow count s previous p h =
    moved-IsBelow count _ s.lightbox_index (previous-IsBelow count) h
update-IsBelow count s next p h = moved-IsBelow count _ s.lightbox_index (next-IsBelow count) h
update-IsBelow count s (key k) p h =
    unless-IsBelow (ltb count 2) count s.lightbox_index _ h
      (moved-IsBelow count (on_key count k) s.lightbox_index (on_key-IsBelow count k) h)
update-IsBelow count s (scroll i) p h = h

run-IsBelow :
    (count : ℕ) (s : Photos) (es : List PhotoEvent)
    → All (InPhotos count) es
    → IsBelow count s.lightbox_index
    → IsBelow count (run count s es).lightbox_index
unfolding run
run-IsBelow count s [] p h = h
run-IsBelow count s (e ∷ es) p h =
    run-IsBelow count (update count s e) es p.1 (update-IsBelow count s e p.0 h)

get_elem?-below {ℓ} :
    {A : Type ℓ} (xs : List A) (i : ℕ) → i < length xs → is_some (get_elem? xs i) ≡ true
get_elem?-below [] i h = absurd (omega (arith, h))
get_elem?-below (x ∷ xs) zero h = refl
get_elem?-below (x ∷ xs) (suc i) h = get_elem?-below xs i (omega (arith, h))

lightbox_photo-is_some :
    (l : Listing) (i : ℕ) (o : Option ListingImage)
    → is_some o ≡ true
    → is_some (lightbox_photo l i o) ≡ true
lightbox_photo-is_some l i none h = h
lightbox_photo-is_some l i (some p) h = refl

lightbox-is_some :
    (l : Listing) (o : Option ℕ) → IsBelow (length l.images) o → is_some (lightbox l o) ≡ true
lightbox-is_some l none h = refl
lightbox-is_some l (some i) h = lightbox_photo-is_some l i _ (get_elem?-below l.images i h)

append_view-is_some :
    (v w : Option (View PhotoEvent))
    → is_some v ≡ true
    → is_some w ≡ true
    → is_some (append_view v w) ≡ true
append_view-is_some none w h k = h
append_view-is_some (some v) none h k = k
append_view-is_some (some v) (some w) h k = refl

stage_photo-is_some :
    (l : Listing) (s : Photos) (o : Option ListingImage)
    → is_some o ≡ true
    → is_some (stage_photo l s o) ≡ true
stage_photo-is_some l s none h = h
stage_photo-is_some l s (some p) h = refl

-- The stage is there wherever there are photos.
stage-is_some : (l : Listing) (s : Photos) → 0 < length l.images → is_some (stage l s) ≡ true
unfolding stage
stage-is_some l s h =
    stage_photo-is_some l s _
      (get_elem?-below l.images (min s.active (length l.images - 1)) (ground (arith, h)))

if-is_some :
    (b : Bool) (v w : Option (View PhotoEvent))
    → is_some v ≡ true
    → is_some w ≡ true
    → is_some (if b then v else w) ≡ true
if-is_some true v w h k = h
if-is_some false v w h k = k

photos_of-is_some :
    (w : Bool) (l : Listing) (is : List ListingImage) (s : Photos)
    → l.images ≡ is
    → is_some (lightbox l s.lightbox_index) ≡ true
    → is_some (photos_of w l is s) ≡ true
photos_of-is_some w l [] s e h = refl
photos_of-is_some w l (i ∷ is) s e h =
    append_view-is_some _ (lightbox l s.lightbox_index)
      (if-is_some w (stage l s) _ (stage-is_some l s (rw e (omega arith))) refl) h

-- As long as the photos of the listing stay the same, no events with indices of photos make the rendering throw: the
-- photo on the stage of a wide screen and the photo in the lightbox are always there.
pub photos_never_throw :
    (w : Bool) (l : Listing) (es : List PhotoEvent)
    → All (InPhotos (length l.images)) es
    → is_some (photos w l (run (length l.images) initial es)) ≡ true
unfolding photos initial
photos_never_throw w l es p =
    photos_of-is_some w l l.images (run (length l.images) initial es) refl
      (lightbox-is_some l _ (run-IsBelow (length l.images) initial es p tt))
