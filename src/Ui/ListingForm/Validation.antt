-- ===== src/Ui/ListingForm/Validation.antt =====
-- When the listing form submits, and what it shows when it does not.
use punah_pustak.Common.{
  ◌≡◌, refl, String, Bool, true, false, not, ◌&&◌, ◌==◌, none, some, [], ◌∷◌, Dict, lookup, truthy,
  if◌then◌else◌, arith, lookup-assign,
}
use punah_pustak.Js.{Numbers, trim}
use punah_pustak.Ui.ListingForm.{
  ListingFormValues, FormField, title, author, description, category, condition, price, field_name,
  Submission, is_bad_price, client_errors, check, submission, handle_submit, unless_errors,
}

module _ (js : Numbers) where
  -- What the form wants of a field.
  abbrev pub is_good : FormField → ListingFormValues → Bool
  is_good title v = truthy (trim v.title)
  is_good author v = truthy (trim v.author)
  is_good description v = truthy (trim v.description)
  is_good category v = truthy v.category
  is_good condition v = truthy v.condition
  is_good price v = not (is_bad_price js v.price)

  abbrev pub message : FormField → String
  message title = "Title is required."
  message author = "Author is required."
  message description = "Description is required."
  message category = "Category is required."
  message condition = "Condition is required."
  message price = "Price must be greater than 0."

  abbrev pub all_good : ListingFormValues → Bool
  all_good v =
      is_good title v
      && (is_good author v
          && (is_good description v
              && (is_good category v && (is_good condition v && is_good price v))))

  lookup-check :
      (b : Bool) (k j m : String) (e : Dict String)
      → lookup j (check b k m e)
        ≡ (if b then (if k == j then some m else lookup j e) else lookup j e)
  lookup-check true k j m e = lookup-assign k j m e
  lookup-check false k j m e = refl

  -- Each field shows its own message exactly when it is not good, whatever the other fields hold.
  pub field_messages :
      (v : ListingFormValues) (f : FormField)
      → lookup (field_name f) (handle_submit js v).0
        ≡ (if is_good f v then none else some (message f))
  unfolding handle_submit client_errors
  field_messages v title = simp lookup-check (ground arith)
  field_messages v author = simp lookup-check (ground arith)
  field_messages v description = simp lookup-check (ground arith)
  field_messages v category = simp lookup-check (ground arith)
  field_messages v condition = simp lookup-check (ground arith)
  field_messages v price = simp lookup-check (ground arith)

  is_empty : Dict String → Bool
  is_empty [] = true
  is_empty (_ ∷ _) = false

  is_empty-check :
      (b : Bool) (k m : String) (e : Dict String) → is_empty (check b k m e) ≡ (not b && is_empty e)
  unfolding is_empty
  is_empty-check false k m e = refl
  is_empty-check true k m [] = refl
  is_empty-check true k m ((j, w) ∷ e) = ground arith

  unless_errors-if :
      (e : Dict String) (s : Submission js)
      → unless_errors js e s ≡ (if is_empty e then some s else none)
  unfolding is_empty
  unless_errors-if [] s = refl
  unless_errors-if (x ∷ e) s = refl

  pub submits_when_good :
      (v : ListingFormValues)
      → (handle_submit js v).1 ≡ (if all_good v then some (submission js v) else none)
  unfolding handle_submit client_errors
  submits_when_good v = rw unless_errors-if (simp is_empty-check (unfold is_empty in ground arith))
