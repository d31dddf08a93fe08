-- ===== src/Ui/ListingForm/Tests.antt =====
-- The listing form on concrete values.
use punah_pustak.Common.{◌==◌, ◌≡◌, refl, String, [], ◌∷◌}
use punah_pustak.Js.{Numbers, trim}
use punah_pustak.Ui.ListingForm.{ListingFormValues, handle_submit, client_errors}

-- Texts for numbers, of which "x" is not one and "0" is not positive.
abbrev texts : Numbers
texts = record {
  Number = String;
  number = λ s. s;
  parse_float = λ s. s;
  is_nan = λ s. s == "x";
  at_most_zero = λ s. s == "0";
  to_fixed_2 = λ s. s;
}

abbrev no_author : ListingFormValues
no_author = record {
  title = "Dune";
  author = "  ";
  description = "Read once.";
  category = "fiction";
  condition = "good";
  price = "0";
}

two_errors :
    (handle_submit texts no_author).0
    ≡ ("author", "Author is required.") ∷ ("price", "Price must be greater than 0.") ∷ []
unfolding handle_submit client_errors trim
two_errors = refl

abbrev dune : ListingFormValues
dune = record no_author { author = "Frank Herbert"; price = "4.50" }
