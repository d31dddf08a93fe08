-- ===== src/Pages/EditListing/Outcomes.antt =====
-- Where the submissions of the edit page end.
use punah_pustak.Common.{ℕ, ◌+◌, ◌≡◌, refl, String, List, [], ◌∷◌, All, length, arith}
use punah_pustak.Js.{Numbers, ◌⧺◌}
use punah_pustak.Auth.{Reply, value, threw}
use punah_pustak.Ui.ListingForm.{Submission}
use punah_pustak.Pages.EditListing.{
  Phase, idle, updating, uploading, EditPage, EditEvent, images_change, submit, update_reply,
  upload_reply, initial, handle_submit, upload_or_leave, updated, uploaded, caught, step, run,
}

-- The saved update whose photos are on their way.
abbrev pub in_flight : Phase → ℕ
in_flight uploading = 1
in_flight idle = 0
in_flight (updating _) = 0

module _ {js : Numbers} where
  -- The events by which the server accepts an update.
  abbrev pub accepted_update : Phase → EditEvent js → ℕ
  accepted_update (updating _) (update_reply (value _)) = 1
  accepted_update _ _ = 0

  -- The events by which an upload of photos fails.
  abbrev pub failed_upload : Phase → EditEvent js → ℕ
  failed_upload uploading (upload_reply (threw _)) = 1
  failed_upload _ _ = 0

module _ (js : Numbers) (id : String) where
  -- How many of the events are of a kind, each in the phase in which it comes.
  abbrev pub total : (Phase → EditEvent js → ℕ) → EditPage js → List (EditEvent js) → ℕ
  total f s [] = 0
  total f s (e ∷ es) = f s.phase e + total f (step js id s e) es

  abbrev pub LeadsBack : List String → Type 0
  LeadsBack = All (λ n. n ≡ "/listings/" ⧺ id)

  -- From `s` to `s'` by `e`: an accepted update is returned from, has its upload failed, or is still on its way.
  record Accounts (p : Phase) (s : EditPage js) (e : EditEvent js) (s' : EditPage js) : Type 0 where
    back : LeadsBack s.navigations → LeadsBack s'.navigations
    sums :
        accepted_update p e + length s.navigations + in_flight p
        ≡ length s'.navigations + failed_upload p e + in_flight s'.phase

  updated-Accounts :
      (p : Phase) (r : Reply (Unit {0})) (s : EditPage js)
      → s.phase ≡ p
      → Accounts p s (update_reply r) (updated js id p r s)
  unfolding updated upload_or_leave caught
  updated-Accounts (updating []) (value _) s e = record {
    back = λ b. (refl, b);
    sums = omega arith;
  }
  updated-Accounts (updating (f ∷ fs)) (value _) s e = record { back = λ b. b; sums = omega arith }
  updated-Accounts (updating files) (threw t) s e = record { back = λ b. b; sums = omega arith }
  updated-Accounts idle r s e = record { back = λ b. b; sums = rw e (omega arith) }
  updated-Accounts uploading r s e = record { back = λ b. b; sums = rw e (omega arith) }

  uploaded-Accounts :
      (p : Phase) (r : Reply (Unit {0})) (s : EditPage js)
      → s.phase ≡ p
      → Accounts p s (upload_reply r) (uploaded js id p r s)
  unfolding uploaded caught
  uploaded-Accounts uploading (value _) s e = record { back = λ b. (refl, b); sums = omega arith }
  uploaded-Accounts uploading (threw t) s e = record { back = λ b. b; sums = omega arith }
  uploaded-Accounts idle r s e = record { back = λ b. b; sums = rw e (omega arith) }
  uploaded-Accounts (updating files) r s e = record { back = λ b. b; sums = rw e (omega arith) }

  handle_submit-Accounts :
      (p : Phase) (v : Submission js) (s : EditPage js)
      → s.phase ≡ p
      → Accounts p s (submit v) (handle_submit js id p v s)
  unfolding handle_submit
  handle_submit-Accounts idle v s e = record { back = λ b. b; sums = omega arith }
  handle_submit-Accounts (updating files) v s e = record {
    back = λ b. b;
    sums = rw e (omega arith);
  }
  handle_submit-Accounts uploading v s e = record { back = λ b. b; sums = rw e (omega arith) }

  images_change-Accounts :
      (p : Phase) (files : List ℕ) (s : EditPage js)
      → s.phase ≡ p
      → Accounts p s (images_change files) (record s { images = files })
  images_change-Accounts idle files s e = record { back = λ b. b; sums = rw e (omega arith) }
  images_change-Accounts (updating _) files s e = record {
    back = λ b. b;
    sums = rw e (omega arith);
  }
  images_change-Accounts uploading files s e = record { back = λ b. b; sums = rw e (omega arith) }

  step-Accounts : (s : EditPage js) (e : EditEvent js) → Accounts s.phase s e (step js id s e)
  unfolding step
  step-Accounts s (images_change files) = images_change-Accounts s.phase files s refl
  step-Accounts s (submit v) = handle_submit-Accounts s.phase v s refl
  step-Accounts s (update_reply r) = updated-Accounts s.phase r s refl
  step-Accounts s (upload_reply r) = uploaded-Accounts s.phase r s refl

  run-Accounts :
      (s : EditPage js) (es : List (EditEvent js))
      → LeadsBack s.navigations
      → let s' = run js id s es in
        LeadsBack s'.navigations
        × (total accepted_update s es + length s.navigations + in_flight s.phase
            ≡ length s'.navigations + total failed_upload s es + in_flight s'.phase)
  unfolding run
  run-Accounts s [] b = (b, omega arith)
  run-Accounts s (e ∷ es) b =
      let h = step-Accounts s e in
      let (back, sums) = run-Accounts (step js id s e) es (h.back b) in
      (back, omega (arith, sums, h.sums))

  -- Over any sequence of events on the page of the listing `id`, every navigation is to that listing, and the number
  -- of updates that the server accepts is that of these returns and of the uploads of photos that fail, and one more
  -- while such an upload is under way.
  pub saves_accounted :
      (es : List (EditEvent js))
      → let s = run js id (initial js) es in
        All (λ n. n ≡ "/listings/" ⧺ id) s.navigations
        × (total accepted_update (initial js) es
            ≡ length s.navigations + total failed_upload (initial js) es + in_flight s.phase)
  unfolding initial
  saves_accounted es =
      let (back, sums) = run-Accounts (initial js) es tt in (back, omega (arith, sums))

  leaves_after_upload :
      (files : List ℕ) (s : EditPage js)
      → let s' = upload_or_leave js id files s in
        (uploaded js id s'.phase (value tt) s').navigations ≡ ("/listings/" ⧺ id) ∷ s.navigations
  unfolding uploaded upload_or_leave
  leaves_after_upload [] s = refl
  leaves_after_upload (f ∷ fs) s = refl

  -- From an idle page, with photos or without, a submission whose update and whose upload succeed leads to the
  -- listing, whatever the user does to the selection of photos meanwhile.
  pub submission_leaves :
      (s : EditPage js) (v : Submission js) (files : List ℕ)
      → s.phase ≡ idle
      → (run js id s (
          submit v
          ∷ images_change files
          ∷ update_reply (value tt)
          ∷ upload_reply (value tt)
          ∷ [])).navigations
        ≡ ("/listings/" ⧺ id) ∷ s.navigations
  unfolding run step handle_submit updated uploaded upload_or_leave
  submission_leaves s v files h = rw h (leaves_after_upload s.images _)
