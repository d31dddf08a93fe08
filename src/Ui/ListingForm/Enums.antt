-- ===== src/Ui/ListingForm/Enums.antt =====
-- The casts `values.category as ListingCategory` and `values.condition as ListingCondition` of the form's submission.
use punah_pustak.Common.{
  sym, subst, ◌∙◌, String, Bool, true, false, ◌≡◌, refl, Option, none, some, [], ◌∷◌, ◌++◌, Dict,
  truthy, lookup, if◌then◌else◌, arith, ◌⊎◌, inl, inr,
}
use punah_pustak.Js.{Numbers}
use punah_pustak.Listings.{
  category_labels, condition_labels, Category, Condition, category_value, condition_value, fiction,
  non_fiction, academic_textbook, children, comics_graphic_novels, other, new, like_new, good, fair,
  poor,
}
use punah_pustak.Ui.View.{
  View, Allows, Allows-append, Offers, Offers-Allows, Allows-when, map_events, heading, text,
  counts, alert, status, image, link, button, choice, dismiss, field,
}
use punah_pustak.Ui.Parts.{loading_button}
use punah_pustak.Ui.ListingForm.{
  ListingFormValues, FormField, title, author, description, category, condition, price, set,
  handle_submit, Submission, submission,
}
use punah_pustak.Ui.ListingForm.Validation.{submits_when_good, all_good}
use punah_pustak.Ui.ListingForm.Screen.{
  Form, FormEvent, change, submit, inner, mounted, update, options, hint_or_error, select_field,
  book_details, category_select, condition_select, price_input, listing_form, details_section,
  photo_section, condition_descriptions, error_of,
}

abbrev pub IsCategory : String → Type 0
IsCategory v = (c : Category) × (v ≡ category_value c)

abbrev pub IsCondition : String → Type 0
IsCondition v = (c : Condition) × (v ≡ condition_value c)

-- What the type of the form's values says: a category or nothing, and a condition or nothing.
abbrev pub Typed : ListingFormValues → Type 0
Typed v =
    ((v.category ≡ "") ⊎ IsCategory v.category) × ((v.condition ≡ "") ⊎ IsCondition v.condition)

-- An event that keeps the values typed.
abbrev SetsTyped : {E : Type 0} → FormEvent E → Type 0
SetsTyped (change category v) = (v ≡ "") ⊎ IsCategory v
SetsTyped (change condition v) = (v ≡ "") ⊎ IsCondition v
SetsTyped _ = Unit

-- The states of the form that the user can bring it to from `start`, whatever the server's errors and the page's photo
-- field are meanwhile; `E` is the type of the photo field's events.
pub data Reaches (E : Type 0) (js : Numbers) (start : ListingFormValues) : Form → Type 0 where
  mounts : Reaches E js start (mounted start)
  acts :
      (s : Form) (server_errors : Dict String) (label : String) (busy : Bool) (photos : View E)
      (e : FormEvent E)
      → Reaches E js start s
      → Offers e (listing_form s server_errors label busy photos)
      → Reaches E js start (update js s e)

module _ (E : Type 0) where
  abbrev Fine : View (FormEvent E) → Type 0
  Fine v = Allows SetsTyped v

  hints-Fine : (hint error : Option String) → Fine (hint_or_error hint error)
  hints-Fine hint (some e) = Allows-when SetsTyped (truthy e) (alert e ∷ []) (λ _. (tt, tt))
  hints-Fine none none = tt
  hints-Fine (some h) none = (tt, tt)

  photos-Fine : (v : View E) → Fine (map_events inner v)
  photos-Fine [] = tt
  photos-Fine (heading _ ∷ v) = (tt, photos-Fine v)
  photos-Fine (text _ ∷ v) = (tt, photos-Fine v)
  photos-Fine (counts _ _ ∷ v) = (tt, photos-Fine v)
  photos-Fine (alert _ ∷ v) = (tt, photos-Fine v)
  photos-Fine (status _ ∷ v) = (tt, photos-Fine v)
  photos-Fine (image _ _ ∷ v) = (tt, photos-Fine v)
  photos-Fine (link _ _ ∷ v) = (tt, photos-Fine v)
  photos-Fine (button _ _ _ ∷ v) = ((λ _. tt), photos-Fine v)
  photos-Fine (choice _ _ _ ∷ v) = (tt, photos-Fine v)
  photos-Fine (dismiss _ ∷ v) = (tt, photos-Fine v)
  photos-Fine (field _ _ _ _ ∷ v) = ((λ _. tt), photos-Fine v)

  categories-Fine : (current : String) → Fine (options category current category_labels)
  categories-Fine current = (
    inr (fiction, refl),
    (
      inr (non_fiction, refl),
      (
        inr (academic_textbook, refl),
        (inr (children, refl), (inr (comics_graphic_novels, refl), (inr (other, refl), tt))),
      ),
    ),
  )

  conditions-Fine : (current : String) → Fine (options condition current condition_labels)
  conditions-Fine current = (
    inr (new, refl),
    (inr (like_new, refl), (inr (good, refl), (inr (fair, refl), (inr (poor, refl), tt)))),
  )

  select-Fine :
      (label placeholder : String) (f : FormField) (labels : Dict String) (current : String)
      → (hint error : Option String) → SetsTyped {E = E} (change f "")
      → Fine (options f current labels)
      → Fine (select_field label placeholder f labels current hint error)
  select-Fine label placeholder f labels current hint error h k = (
    tt,
    (
      h,
      Allows-append SetsTyped (options f current labels) (hint_or_error hint error) k
          (hints-Fine hint error),
    ),
  )

  module _ (s : Form) (server_errors : Dict String) where
    category-Fine : Fine (category_select s server_errors)
    category-Fine =
        select-Fine "Category" "Select a category" category category_labels s.values.category none
          (error_of s server_errors "category") (inl refl) (categories-Fine s.values.category)

    condition-Fine : Fine (condition_select s server_errors)
    condition-Fine =
        select-Fine "Condition" "Select a condition" condition condition_labels s.values.condition
          (lookup s.values.condition condition_descriptions) (error_of s server_errors "condition")
          (inl refl) (conditions-Fine s.values.condition)

    details-Fine : Fine (details_section s server_errors)
    details-Fine = (
      tt,
      (
        tt,
        Allows-append SetsTyped (category_select s server_errors)
            (condition_select s server_errors ++ price_input s server_errors) category-Fine
            (Allows-append SetsTyped (condition_select s server_errors)
              (price_input s server_errors) condition-Fine ((λ _. tt), (tt, tt))),
      ),
    )

    photo_section-Fine :
        (label : String) (busy : Bool) (photos : View E)
        → Fine (photo_section s server_errors label busy photos)
    photo_section-Fine label busy photos = (
      tt,
      (
        tt,
        Allows-append SetsTyped (map_events inner photos)
            (loading_button label false busy submit ∷ []) (photos-Fine photos) ((λ _. tt), tt),
      ),
    )

    form-Fine :
        (label : String) (busy : Bool) (photos : View E)
        → Fine (listing_form s server_errors label busy photos)
    unfolding listing_form
    form-Fine label busy photos =
        Allows-append SetsTyped (book_details s server_errors)
          (details_section s server_errors ++ photo_section s server_errors label busy photos)
          (tt, (tt, ((λ _. tt), ((λ _. tt), ((λ _. tt), tt)))))
          (Allows-append SetsTyped (details_section s server_errors)
            (photo_section s server_errors label busy photos) details-Fine
            (photo_section-Fine label busy photos))

  Typed-update :
      (js : Numbers) (s : Form) (e : FormEvent E)
      → SetsTyped e
      → Typed s.values
      → Typed (update js s e).values
  unfolding update set
  Typed-update js s (change title v) h t = t
  Typed-update js s (change author v) h t = t
  Typed-update js s (change description v) h t = t
  Typed-update js s (change price v) h t = t
  Typed-update js s (change category v) h t = (h, t.1)
  Typed-update js s (change condition v) h t = (t.0, h)
  Typed-update js s submit h t = t
  Typed-update js s (inner e) h t = t

-- A value that is not empty is a value of the enum.
chosen : (P : Type 0) (v : String) → (v ≡ "") ⊎ P → truthy v ≡ true → P
chosen P v (inl e) t = absurd (ground (arith, subst (λ x. truthy x ≡ true) e t))
chosen P v (inr p) t = p

good_values :
    (js : Numbers) (v : ListingFormValues)
    → Typed v
    → all_good js v ≡ true
    → IsCategory v.category × IsCondition v.condition
good_values js v t g = (
  chosen (IsCategory v.category) v.category t.0 (ground arith),
  chosen (IsCondition v.condition) v.condition t.1 (ground arith),
)

if_some :
    {A : Type 0} (b : Bool) (x y : A) → (if b then some x else none) ≡ some y → (b ≡ true) × (x ≡ y)
if_some b x y h = ground arith

module _ {E : Type 0} (js : Numbers) (start : ListingFormValues) where
  pub Reaches-Typed : (s : Form) → Typed start → Reaches E js start s → Typed s.values
  Reaches-Typed s t mounts = t
  Reaches-Typed s t (acts s' server_errors label busy photos e r o) =
      Typed-update E js s' e
        (Offers-Allows SetsTyped e _ (form-Fine E s' server_errors label busy photos) o)
        (Reaches-Typed s' t r)

  -- Whatever the user does with the form that a page renders, starting from values of the declared type, what it
  -- submits holds a category and a condition of the API's enums: both casts of the source are sound.
  pub submits_enums :
      (s : Form) (sub : Submission js)
      → Typed start
      → Reaches E js start s
      → (handle_submit js s.values).1 ≡ some sub
      → IsCategory sub.category × IsCondition sub.condition
  submits_enums s sub t r h =
      let g =
        if_some (all_good js s.values) (submission js s.values) sub
          (sym (submits_when_good js s.values) ∙ h) in
      subst (λ (x : Submission js). IsCategory x.category × IsCondition x.condition) g.1
        (good_values js s.values (Reaches-Typed s t r) g.0)
