-- ===== src/Tests/Utilities.antt =====
-- Runs of utils/.
use gosible.Base.{◌≡◌, refl, List, [], ◌∷◌, ◌++◌, ok, ◌↔◌, true}
use gosible.Base.Int.{pos, negsuc}
use gosible.GoText.{Str, codes}
use gosible.Utilities.Version.{Loose, compare_loose}
use gosible.Utilities.Slices.{equal}
use gosible.Utilities.Slices.Laws.{equal-append}

abbrev old : Loose
old = pos 1 ∷ []

abbrev new : Loose
new = pos 1 ∷ pos 2 ∷ []

abbrev newest : Loose
newest = pos 2 ∷ []

old-new : compare_loose old new ≡ negsuc 0
unfolding compare_loose
old-new = refl

new-newest : compare_loose new newest ≡ negsuc 0
unfolding compare_loose
new-newest = refl

equal-append_example :
    (equal (codes "a" ∷ []) (codes "a" ∷ codes "b" ∷ []) ≡ ok true)
    ↔ ((rest : List Str) × ((codes "a" ∷ codes "b" ∷ []) ≡ (codes "a" ∷ []) ++ rest))
equal-append_example = equal-append (codes "a" ∷ []) (codes "a" ∷ codes "b" ∷ [])
