-- ===== src/Ui/ListingForm.antt =====
-- frontend/src/components/ListingForm.tsx: the values of the form, its client-side validation and
-- its submission. As in the source, a category or a condition is a text, empty for none.
pub mod Validation
pub mod Screen
pub mod Enums
mod Tests
use punah_pustak.Common.{
  String, Bool, true, false, not, ◌||◌, Option, none, some, List, [], ◌∷◌, Dict, lookup, assign,
  truthy, if◌then◌else◌,
}
use punah_pustak.Js.{Numbers, trim}

pub record ListingFormValues : Type 0 where
  pub title : String
  pub author : String
  pub description : String
  pub category : String
  pub condition : String
  pub price : String

pub data FormField : Type 0 where
  title author description category condition price : FormField

abbrev pub empty_listing_form_values : ListingFormValues
empty_listing_form_values = record {
  title = "";
  author = "";
  description = "";
  category = "";
  condition = "";
  price = "";
}

abbrev pub field_name : FormField → String
field_name title = "title"
field_name author = "author"
field_name description = "description"
field_name category = "category"
field_name condition = "condition"
field_name price = "price"

-- The `set` of the component.
unfoldable pub set : FormField → String → ListingFormValues → ListingFormValues
set title v s = record s { title = v }
set author v s = record s { author = v }
set description v s = record s { description = v }
set category v s = record s { category = v }
set condition v s = record s { condition = v }
set price v s = record s { price = v }

-- `if (test) errors[key] = message;`
abbrev check : Bool → String → String → Dict String → Dict String
check test key message errors = if test then assign key message errors else errors

abbrev is_blank : String → Bool
is_blank s = not (truthy (trim s))

-- `clientErrors[field] ?? serverFieldErrors[field]`
abbrev first_error : Option String → Option String → Option String
first_error none server = server
first_error (some e) server = some e

unfoldable pub field_error : Dict String → Dict String → String → Option String
field_error client server name = first_error (lookup name client) (lookup name server)

module _ (js : Numbers) where
  open js use {Number, number, is_nan, at_most_zero}

  -- The argument of `onSubmit`.
  pub record Submission : Type 0 where
    pub title : String
    pub author : String
    pub description : String
    pub category : String
    pub condition : String
    pub price : Number

  abbrev is_bad_price : String → Bool
  is_bad_price p = not (truthy p) || (is_nan (number p) || at_most_zero (number p))

  unfoldable pub client_errors : ListingFormValues → Dict String
  client_errors v = check (is_bad_price v.price) "price" "Price must be greater than 0." (
      check (not (truthy v.condition)) "condition" "Condition is required." (
        check (not (truthy v.category)) "category" "Category is required." (
          check (is_blank v.description) "description" "Description is required." (
            check (is_blank v.author) "author" "Author is required."
              (check (is_blank v.title) "title" "Title is required." [])))))

  abbrev pub submission : ListingFormValues → Submission
  submission v = record {
    title = v.title;
    author = v.author;
    description = v.description;
    category = v.category;
    condition = v.condition;
    price = number v.price;
  }

  abbrev unless_errors : Dict String → Submission → Option Submission
  unless_errors [] s = some s
  unless_errors (_ ∷ _) s = none

  -- The errors that `handleSubmit` shows, and what it passes to `onSubmit`, if it does.
  unfoldable pub handle_submit : ListingFormValues → Dict String × Option Submission
  handle_submit v = (client_errors v, unless_errors (client_errors v) (submission v))
