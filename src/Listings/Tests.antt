-- ===== src/Listings/Tests.antt =====
-- The meter on concrete conditions.
use punah_pustak.Common.{◌≡◌, refl, true, false, [], ◌∷◌}
use punah_pustak.Listings.{good}
use punah_pustak.Listings.Labels.{condition_meter}

good_meter : (condition_meter good).marks ≡ true ∷ true ∷ true ∷ false ∷ false ∷ []
unfolding condition_meter
good_meter = refl
