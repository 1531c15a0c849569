-- ===== src/Areas/Codes.antt =====
-- The wire codes of the areas are read back as they are written, and no other text is read.
use spot_price.Prelude.{String, ◌≡◌, ◌↔◌, refl, some, find-true, eq_iff, str_eq}
use spot_price.Areas.{Area, all_areas, code, from_str}

from_str-code : (a : Area) → from_str (code a) ≡ some a
unfolding from_str
from_str-code Area.fi = refl
from_str-code _ = refl

-- A text is read as an area exactly when it is the code of that area, letter for letter.
pub from_str_iff : (text : String) (a : Area) → (from_str text ≡ some a) ↔ (code a ≡ text)
unfolding from_str
from_str_iff text a = (
  λ h. (eq_iff (code a) text).0 (find-true (λ area. str_eq (code area) text) all_areas h),
  λ e. rw (← e) (from_str-code a),
)
