-- ===== src/Areas/Examples.antt =====
-- Runs of the area codes.
use spot_price.Prelude.{some, none, ◌≡◌, refl}
use spot_price.Areas.{Area, from_str}

test-from_str : from_str "GER" ≡ some Area.ger
unfolding from_str
test-from_str = refl

test-from_str_unknown : from_str "fi" ≡ none
unfolding from_str
test-from_str_unknown = refl
