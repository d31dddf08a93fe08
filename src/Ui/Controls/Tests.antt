-- ===== src/Ui/Controls/Tests.antt =====
-- Concrete controls.
use punah_pustak.Common.{true, none, some, [], ◌∷◌}
use punah_pustak.Ui.Controls.{ControlProps, input, select, description_field}
use punah_pustak.Ui.Controls.Labels.{IsLabelled, controls-IsLabelled}

-- The price of a listing, refused.
abbrev price_props : ControlProps
price_props = record {
  id = none;
  required = true;
  error = some "Price must be greater than 0.";
  hint = some "In USD.";
}

controls-IsLabelled_example :
    IsLabelled (input ":r1:" price_props)
    × IsLabelled (select ":r1:" price_props (some "Select") (("good", "Good") ∷ [])).control
    × IsLabelled (description_field (some "Price must be greater than 0."))
controls-IsLabelled_example =
    controls-IsLabelled ":r1:" price_props (some "Select") (("good", "Good") ∷ [])
