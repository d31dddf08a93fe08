-- ===== src/Ui/ListingForm/Screen.antt =====
-- frontend/src/components/ListingForm.tsx and Select.tsx: the state of the form, what it renders and what the user can
-- do with it. The events of its children, the photo field of a page, are of type `E`.
use punah_pustak.Common.{
  String, Bool, false, ◌==◌, Option, none, some, [], ◌∷◌, ◌++◌, Dict, truthy, lookup,
}
use punah_pustak.Js.{Numbers}
use punah_pustak.Listings.{
  category_labels, condition_labels, condition_description, condition_value, new, like_new, good,
  fair, poor,
}
use punah_pustak.Ui.View.{View, Item, heading, text, alert, choice, field, map_events, when}
use punah_pustak.Ui.Parts.{loading_button}
use punah_pustak.Ui.ListingForm.{
  ListingFormValues, FormField, title, author, description, category, condition, price, set,
  field_error, handle_submit,
}

pub record Form : Type 0 where
  pub values : ListingFormValues
  pub client_errors : Dict String

pub data FormEvent (E : Type 0) : Type 0 where
  change : FormField → String → FormEvent E
  submit : FormEvent E
  inner : E → FormEvent E

-- The state with which the form mounts.
abbrev pub mounted : ListingFormValues → Form
mounted initial_values = record { values = initial_values; client_errors = [] }

unfoldable pub update : {E : Type 0} → Numbers → Form → FormEvent E → Form
update js s (change f v) = record s { values = set f v s.values }
update js s submit = record s { client_errors = (handle_submit js s.values).0 }
update js s (inner e) = s

-- `CONDITION_DESCRIPTIONS[values.condition]`
abbrev pub condition_descriptions : Dict String
condition_descriptions =
    (condition_value new, condition_description new)
    ∷ (condition_value like_new, condition_description like_new)
    ∷ (condition_value good, condition_description good)
    ∷ (condition_value fair, condition_description fair)
    ∷ (condition_value poor, condition_description poor)
    ∷ []

-- `fieldError`
abbrev pub error_of : Form → Dict String → String → Option String
error_of s server_errors name = field_error s.client_errors server_errors name

module _ {E : Type 0} where
  -- The options of a `Select`: the entries of the labels.
  abbrev pub options : FormField → (current : String) → Dict String → View (FormEvent E)
  options f current [] = []
  options f current ((value, label) ∷ rest) =
      choice label (current == value) (change f value) ∷ options f current rest

  abbrev pub hint_or_error : (hint error : Option String) → View (FormEvent E)
  hint_or_error hint (some e) = when (truthy e) (alert e ∷ [])
  hint_or_error none none = []
  hint_or_error (some h) none = text h ∷ []

  -- A `Select` with a placeholder, whose value is empty.
  abbrev pub select_field :
      (label placeholder : String) (f : FormField) (labels : Dict String) (current : String)
      → (hint error : Option String) → View (FormEvent E)
  select_field label placeholder f labels current hint error =
      text label
      ∷ choice placeholder (current == "") (change f "")
      ∷ (options f current labels ++ hint_or_error hint error)

  abbrev pub input :
      (label : String) (f : FormField) (current : String) (error : Option String)
      → Item (FormEvent E)
  input label f current error = field label current error (change f)

  module _ (s : Form) (server_errors : Dict String) where
    abbrev pub book_details : View (FormEvent E)
    book_details =
        heading "Book details"
        ∷ text "What is it, and what should a buyer know?"
        ∷ input "Title" title s.values.title (error_of s server_errors "title")
        ∷ input "Author" author s.values.author (error_of s server_errors "author")
        ∷ input "Description" description s.values.description
            (error_of s server_errors "description")
        ∷ []

    abbrev pub category_select : View (FormEvent E)
    category_select =
        select_field "Category" "Select a category" category category_labels s.values.category none
          (error_of s server_errors "category")

    abbrev pub condition_select : View (FormEvent E)
    condition_select =
        select_field "Condition" "Select a condition" condition condition_labels s.values.condition
          (lookup s.values.condition condition_descriptions) (error_of s server_errors "condition")

    abbrev pub price_input : View (FormEvent E)
    price_input =
        input "Price" price s.values.price (error_of s server_errors "price") ∷ text "In USD." ∷ []

    abbrev pub details_section : View (FormEvent E)
    details_section =
        heading "Category, condition & price"
        ∷ text "Help buyers filter to exactly what they want."
        ∷ (category_select ++ (condition_select ++ price_input))

    abbrev pub photo_section :
        (submit_label : String) (is_submitting : Bool) → View E → View (FormEvent E)
    photo_section submit_label is_submitting children =
        heading "Photos"
        ∷ text "A photo of your actual copy shows buyers what they're getting."
        ∷ (map_events inner children
            ++ (loading_button submit_label false is_submitting submit ∷ []))

    unfoldable pub listing_form :
        (submit_label : String) (is_submitting : Bool) → View E → View (FormEvent E)
    listing_form submit_label is_submitting children =
        book_details ++ (details_section ++ photo_section submit_label is_submitting children)
