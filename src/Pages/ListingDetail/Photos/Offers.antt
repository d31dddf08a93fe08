-- ===== src/Pages/ListingDetail/Photos/Offers.antt =====
-- What the photos let the user do.
use punah_pustak.Common.{
  ℕ, suc, ◌+◌, ◌<◌, ltb, Bool, true, false, Option, none, some, List, [], ◌∷◌, ◌≡◌, length,
  get_elem?, if◌then◌else◌, arith, subst,
}
use punah_pustak.Listings.{Listing, ListingImage}
use punah_pustak.Ui.View.{
  View, text, counts, button, Allows, Allows-append, Allows-when, Offers, Offers-Allows,
}
use punah_pustak.Pages.ListingDetail.Photos.{
  Photos, PhotoEvent, previous, next, strip_from, swipe_from, photo, lightbox, lightbox_photo,
  append_view, photos_of, photos, stage, stage_photo, stage_view, swipe_strip, contact_strip,
}
use punah_pustak.Pages.ListingDetail.Photos.Bounds.{InPhotos}

photo-Allows :
    (count : ℕ) (l : Listing) (i : ℕ) (p : ListingImage) → Allows (InPhotos count) (photo l i p)
photo-Allows count l i p = (tt, (tt, tt))

strip-Allows :
    (count active index : ℕ) (is : List ListingImage)
    → index + length is ≡ count
    → Allows (InPhotos count) (strip_from count active index is)
strip-Allows count active index [] h = tt
strip-Allows count active index (p ∷ ps) h =
    (tt, (tt, (omega (arith, h), strip-Allows count active (suc index) ps (omega (arith, h)))))

swipe-Allows :
    (l : Listing) (index : ℕ) (is : List ListingImage)
    → index + length is ≡ length l.images
    → Allows (InPhotos (length l.images)) (swipe_from l index is)
swipe-Allows l index [] h = tt
swipe-Allows l index (p ∷ ps) h =
    (tt, (λ _. omega (arith, h), (tt, (tt, swipe-Allows l (suc index) ps (omega (arith, h))))))

Allows-if :
    (P : PhotoEvent → Type 0) (b : Bool) (v w : View PhotoEvent)
    → Allows P v
    → Allows P w
    → Allows P (if b then v else w)
Allows-if P true v w h k = h
Allows-if P false v w h k = k

module _ (l : Listing) where
  abbrev count : ℕ
  count = length l.images

  AllowsSome : Option (View PhotoEvent) → Type 0
  AllowsSome none = Unit
  AllowsSome (some v) = Allows (InPhotos count) v

  stage_view-Allows :
      (s : Photos) (p : ListingImage)
      → s.active < count
      → Allows (InPhotos count) (stage_view l s p)
  unfolding contact_strip
  stage_view-Allows s p h = (
    tt,
    (
      λ _. h,
      (
        tt,
        (
          tt,
          (
            tt,
            (
              λ _. h,
              Allows-when (InPhotos count) (ltb 1 count) (strip_from count s.active 0 l.images)
                  (λ _. strip-Allows count s.active 0 l.images (omega arith)),
            ),
          ),
        ),
      ),
    ),
  )

  stage_photo-AllowsSome :
      (s : Photos) (o : Option ListingImage) → s.active < count → AllowsSome (stage_photo l s o)
  unfolding AllowsSome
  stage_photo-AllowsSome s none h = tt
  stage_photo-AllowsSome s (some p) h = stage_view-Allows s p h

  stage-AllowsSome : (s : Photos) → s.active < count → AllowsSome (stage l s)
  unfolding stage
  stage-AllowsSome s h = stage_photo-AllowsSome s _ h

  swipe_strip-Allows : (s : Photos) → Allows (InPhotos count) (swipe_strip l s)
  unfolding swipe_strip
  swipe_strip-Allows s = (
    tt,
    Allows-append (InPhotos count) (swipe_from l 0 l.images) _
        (swipe-Allows l 0 l.images (omega arith)) (tt, (tt, tt)),
  )

  lightbox_photo-AllowsSome : (i : ℕ) (o : Option ListingImage) → AllowsSome (lightbox_photo l i o)
  unfolding AllowsSome
  lightbox_photo-AllowsSome i none = tt
  lightbox_photo-AllowsSome i (some p) = (
    tt,
    (
      tt,
      (
        λ _. tt,
        (
          tt,
          (
            tt,
            Allows-if (InPhotos count) (ltb 1 count)
                (button "Previous" false previous
                  ∷ counts "{} / {}" ((i + 1) ∷ count ∷ [])
                  ∷ button "Next" false next
                  ∷ [])
                (text "1 / 1" ∷ []) (λ _. tt, (tt, (λ _. tt, tt))) (tt, tt),
          ),
        ),
      ),
    ),
  )

  lightbox-AllowsSome : (o : Option ℕ) → AllowsSome (lightbox l o)
  unfolding AllowsSome
  lightbox-AllowsSome none = tt
  lightbox-AllowsSome (some i) = lightbox_photo-AllowsSome i (get_elem? l.images i)

  append_view-AllowsSome :
      (v w : Option (View PhotoEvent)) → AllowsSome v → AllowsSome w → AllowsSome (append_view v w)
  unfolding AllowsSome
  append_view-AllowsSome none w h k = tt
  append_view-AllowsSome (some v) none h k = tt
  append_view-AllowsSome (some v) (some w) h k = Allows-append (InPhotos count) v w h k

  if-AllowsSome :
      (b : Bool) (v w : Option (View PhotoEvent))
      → AllowsSome v
      → AllowsSome w
      → AllowsSome (if b then v else w)
  if-AllowsSome true v w h k = h
  if-AllowsSome false v w h k = k

  some_strip-AllowsSome : (s : Photos) → AllowsSome (some (swipe_strip l s))
  unfolding AllowsSome
  some_strip-AllowsSome s = swipe_strip-Allows s

  photos_of-AllowsSome :
      (w : Bool) (is : List ListingImage) (s : Photos)
      → s.active < count
      → AllowsSome (photos_of w l is s)
  photos_of-AllowsSome w [] s h = unfold AllowsSome in (tt, tt)
  photos_of-AllowsSome w (i ∷ is) s h =
      append_view-AllowsSome _ (lightbox l s.lightbox_index)
        (if-AllowsSome w (stage l s) _ (stage-AllowsSome s h) (some_strip-AllowsSome s))
        (lightbox-AllowsSome s.lightbox_index)

-- While the selected photo is one of the listing's, whatever the user can press selects or enlarges one of the
-- listing's photos too.
pub photos_offered :
    (w : Bool) (l : Listing) (s : Photos) (v : View PhotoEvent) (e : PhotoEvent)
    → s.active < length l.images
    → photos w l s ≡ some v
    → Offers e v
    → InPhotos (length l.images) e
unfolding photos AllowsSome
photos_offered w l s v e h shown o =
    Offers-Allows (InPhotos (length l.images)) e v
      (subst (AllowsSome l) shown (photos_of-AllowsSome l w l.images s h)) o
