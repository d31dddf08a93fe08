-- ===== src/Pages/CreateListing/Once.antt =====
-- A visit to the page creates at most one listing, however often the upload has to be retried.
use punah_pustak.Common.{
  ℕ, suc, ◌≤◌, ◌≡◌, ◌⊎◌, inl, inr, refl, String, Bool, true, false, Option, none, some, List, [],
  ◌∷◌, All, arith, truthy, truthy_option, ap, sym, subst, ◌∙◌,
}
use punah_pustak.Auth.{Reply, value, threw}
use punah_pustak.Pages.CreateListing.{
  Phase, idle, creating, uploading, Request, create_request, upload_request, CreatePage,
  CreateEvent, images_change, submit, create_reply, upload_reply, initial, upload_or_leave, start,
  handle_submit, created_reply, uploaded, step, run,
}

-- The server gives listings ids that are not empty.
abbrev pub HasId : CreateEvent → Type 0
HasId (create_reply (value id)) = truthy id ≡ true
HasId _ = Unit

-- Every upload in the log is for the listing `o`.
abbrev pub UploadsTo : Option String → List Request → Type 0
UploadsTo o [] = Unit
UploadsTo o (create_request ∷ rs) = UploadsTo o rs
UploadsTo o (upload_request id _ ∷ rs) = (o ≡ some id) × UploadsTo o rs

abbrev no_uploads : List Request → Bool
no_uploads [] = true
no_uploads (create_request ∷ rs) = no_uploads rs
no_uploads (upload_request _ _ ∷ rs) = false

abbrev is_creating : Phase → Bool
is_creating (creating _) = true
is_creating idle = false
is_creating (uploading _) = false

abbrev is_uploading : Phase → Bool
is_uploading (uploading _) = true
is_uploading idle = false
is_uploading (creating _) = false

-- No listing has been made and nothing uploaded.
record IsBefore (s : CreatePage) : Type 0 where
  none_made : s.created ≡ 0
  no_id : s.created_listing_id ≡ none
  quiet : no_uploads s.requests ≡ true
  waits : is_uploading s.phase ≡ false

-- One listing has been made, its id is saved, no other is being made, and photos go to it.
record IsAfter (s : CreatePage) : Type 0 where
  id : String
  named : truthy id ≡ true
  saved : s.created_listing_id ≡ some id
  one_made : s.created ≡ 1
  only : is_creating s.phase ≡ false
  uploads : UploadsTo (some id) s.requests

no_uploads-UploadsTo :
    (o : Option String) (rs : List Request) → no_uploads rs ≡ true → UploadsTo o rs
no_uploads-UploadsTo o [] h = tt
no_uploads-UploadsTo o (create_request ∷ rs) h = no_uploads-UploadsTo o rs h
no_uploads-UploadsTo o (upload_request _ _ ∷ rs) h = cc

IsInvariant : CreatePage → Type 0
IsInvariant s = IsBefore s ⊎ IsAfter s

-- `if (images.length > 0) …` with the saved id of the one listing.
upload_or_leave-IsAfter :
    (id : String) (files : List ℕ) (s : CreatePage)
    → truthy id ≡ true
    → s.created_listing_id ≡ some id
    → s.created ≡ 1
    → UploadsTo (some id) s.requests
    → IsAfter (upload_or_leave id files s)
unfolding upload_or_leave
upload_or_leave-IsAfter id [] s n v c u = record {
  id = id;
  named = n;
  saved = v;
  one_made = c;
  only = refl;
  uploads = u;
}
upload_or_leave-IsAfter id (f ∷ fs) s n v c u = record {
  id = id;
  named = n;
  saved = v;
  one_made = c;
  only = refl;
  uploads = (refl, u);
}

start-IsBefore : (o : Option String) (s : CreatePage) → o ≡ none → IsBefore s → IsBefore (start o s)
unfolding start
start-IsBefore none s e b = record {
  none_made = b.none_made;
  no_id = b.no_id;
  quiet = b.quiet;
  waits = refl;
}
start-IsBefore (some i) s e b = absurd (ground arith)

start-IsAfter :
    (o : Option String) (s : CreatePage)
    → s.created_listing_id ≡ o
    → IsAfter s
    → IsAfter (start o s)
unfolding start
start-IsAfter none s e a = absurd (ground (arith, a.saved))
start-IsAfter (some i) s e a =
    rw (ap truthy_option (sym e), ap truthy_option a.saved, a.named)
      (upload_or_leave-IsAfter i s.images s
        (subst (λ o. truthy_option o ≡ true) (sym a.saved ∙ e) a.named) e a.one_made
        (subst (λ o. UploadsTo o s.requests) (sym a.saved ∙ e) a.uploads))

submit-IsInvariant : (p : Phase) (s : CreatePage) → IsInvariant s → IsInvariant (handle_submit p s)
unfolding handle_submit IsInvariant
submit-IsInvariant idle s (inl b) = inl (
    start-IsBefore s.created_listing_id _ b.no_id
      (record { none_made = b.none_made; no_id = b.no_id; quiet = b.quiet; waits = b.waits }))
submit-IsInvariant idle s (inr a) = inr (
    start-IsAfter s.created_listing_id _ refl (record {
      id = a.id;
      named = a.named;
      saved = a.saved;
      one_made = a.one_made;
      only = a.only;
      uploads = a.uploads;
    }))
submit-IsInvariant (creating f) s h = h
submit-IsInvariant (uploading i) s h = h

create-IsInvariant :
    (p : Phase) (r : Reply String) (s : CreatePage)
    → s.phase ≡ p
    → HasId (create_reply r)
    → IsInvariant s
    → IsInvariant (created_reply p r s)
unfolding created_reply IsInvariant
create-IsInvariant (creating fs) (value id) s e n (inl b) = inr (
    upload_or_leave-IsAfter id fs _ n refl (ap suc b.none_made)
      (no_uploads-UploadsTo (some id) s.requests b.quiet))
create-IsInvariant (creating fs) (threw t) s e n (inl b) =
    inl (record { none_made = b.none_made; no_id = b.no_id; quiet = b.quiet; waits = refl })
create-IsInvariant (creating fs) r s e n (inr b) = absurd (ground (arith, b.only))
create-IsInvariant idle r s e n h = h
create-IsInvariant (uploading i) r s e n h = h

upload-IsInvariant :
    (p : Phase) (r : Reply (Unit {0})) (s : CreatePage)
    → s.phase ≡ p
    → IsInvariant s
    → IsInvariant (uploaded p r s)
unfolding uploaded IsInvariant
upload-IsInvariant (uploading i) r s e (inl b) = absurd (ground (arith, b.waits))
upload-IsInvariant (uploading i) (value _) s e (inr a) = inr (record {
  id = a.id;
  named = a.named;
  saved = a.saved;
  one_made = a.one_made;
  only = refl;
  uploads = a.uploads;
})
upload-IsInvariant (uploading i) (threw _) s e (inr a) = inr (record {
  id = a.id;
  named = a.named;
  saved = a.saved;
  one_made = a.one_made;
  only = refl;
  uploads = a.uploads;
})
upload-IsInvariant idle r s e h = h
upload-IsInvariant (creating f) r s e h = h

images-IsInvariant :
    (fs : List ℕ) (s : CreatePage) → IsInvariant s → IsInvariant (record s { images = fs })
unfolding IsInvariant
images-IsInvariant fs s (inl b) =
    inl (record { none_made = b.none_made; no_id = b.no_id; quiet = b.quiet; waits = b.waits })
images-IsInvariant fs s (inr a) = inr (record {
  id = a.id;
  named = a.named;
  saved = a.saved;
  one_made = a.one_made;
  only = a.only;
  uploads = a.uploads;
})

step-IsInvariant :
    (s : CreatePage) (e : CreateEvent) → HasId e → IsInvariant s → IsInvariant (step s e)
unfolding step
step-IsInvariant s (images_change fs) n h = images-IsInvariant fs s h
step-IsInvariant s submit n h = submit-IsInvariant s.phase s h
step-IsInvariant s (create_reply r) n h = create-IsInvariant s.phase r s refl n h
step-IsInvariant s (upload_reply r) n h = upload-IsInvariant s.phase r s refl h

run-IsInvariant :
    (s : CreatePage) (es : List CreateEvent) → All HasId es → IsInvariant s → IsInvariant (run s es)
unfolding run
run-IsInvariant s [] n h = h
run-IsInvariant s (e ∷ es) n h = run-IsInvariant (step s e) es n.1 (step-IsInvariant s e n.0 h)

-- Over any events of one visit in which the server names the listings it makes with ids that are not empty, at most
-- one listing is made, however often the upload fails and the form is submitted again, and every upload is for the
-- listing whose id the page has saved.
pub creates_once :
    (es : List CreateEvent)
    → All HasId es
    → ((run initial es).created ≤ 1)
      × UploadsTo (run initial es).created_listing_id (run initial es).requests
unfolding IsInvariant initial
creates_once es n =
    elim (run-IsInvariant initial es n
      (inl (record { none_made = refl; no_id = refl; quiet = refl; waits = refl }))) [
        | inl b ↦ (
          omega (arith, b.none_made),
          no_uploads-UploadsTo (run initial es).created_listing_id (run initial es).requests
              b.quiet,
        )
        | inr a ↦ (
          omega (arith, a.one_made),
          subst (λ o. UploadsTo o (run initial es).requests) (sym a.saved) a.uploads,
        )
      ]
