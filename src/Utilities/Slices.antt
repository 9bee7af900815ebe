-- ===== src/Utilities/Slices.antt =====
-- utils/slices/slices.go, on texts. Contains is `slice_contains` of the inventory.
pub mod Laws
use gosible.Base.{Bool, true, false, List, [], ◌∷◌, if◌then◌else◌, Outcome, ok, panic}
use gosible.GoText.{Str, str_eq}

pub data NoError : Type 0 where

-- `slice2[i]` panics past the end of the second slice.
unfoldable pub equal : List Str → List Str → Outcome NoError Bool
equal [] slice2 = ok true
equal (el ∷ slice) [] = panic
equal (el ∷ slice) (x ∷ slice2) =
    let rest = equal slice slice2 in if str_eq x el then rest else ok false
