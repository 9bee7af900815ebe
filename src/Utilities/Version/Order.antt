-- ===== src/Utilities/Version/Order.antt =====
-- The order of versions, and what NewLoose gives.
use gosible.Base.{
  zero, suc, ◌≡◌, refl, Bool, true, false, [], ◌∷◌, arith, if◌then◌else◌, panic, ◌↔◌, subst,
}
use gosible.Base.Int.{ℤ, pos, negsuc, lt_ℤ, eq_of_parts}
use gosible.GoText.{Str}
use gosible.GoText.Laws.{split-cases}
use gosible.Utilities.Version.{Loose, new_loose, parse_parts, write_at, compare_loose}

-- the result for the versions the other way round
abbrev opposite : ℤ → ℤ
opposite (pos zero) = pos 0
opposite (pos (suc n)) = negsuc n
opposite (negsuc n) = pos (suc n)

not_both : (p q : ℤ) → lt_ℤ q p ≡ true → lt_ℤ p q ≡ false
not_both p q h = ground (arith, h)

step :
    (a b : Bool) (r t : ℤ)
    → (a ≡ true → b ≡ false)
    → r ≡ opposite t
    → (if a then pos 1 else if b then negsuc 0 else r)
      ≡ opposite (if b then pos 1 else if a then negsuc 0 else t)
step true true r t n h = absurd (ground (arith, n refl))
step true false r t n h = refl
step false true r t n h = refl
step false false r t n h = h

compare_loose-opposite : (l m : Loose) → compare_loose l m ≡ opposite (compare_loose m l)
unfolding compare_loose
compare_loose-opposite [] [] = refl
compare_loose-opposite [] (q ∷ m) = refl
compare_loose-opposite (p ∷ l) [] = refl
compare_loose-opposite (p ∷ l) (q ∷ m) =
    step (lt_ℤ q p) (lt_ℤ p q) (compare_loose l m) (compare_loose m l) (not_both p q)
      (compare_loose-opposite l m)

compare_loose_self : (l : Loose) → compare_loose l l ≡ pos 0
unfolding compare_loose
compare_loose_self [] = refl
compare_loose_self (p ∷ l) = ground (arith, compare_loose_self l)

compare_loose_same : (l m : Loose) → compare_loose l m ≡ pos 0 → l ≡ m
unfolding compare_loose
compare_loose_same [] [] h = refl
compare_loose_same [] (q ∷ m) h = absurd (ground (arith, h))
compare_loose_same (p ∷ l) [] h = absurd (ground (arith, h))
compare_loose_same (p ∷ l) (q ∷ m) h = ground (arith, h, compare_loose_same l m, eq_of_parts p q)

-- Less is transitive: versions that Compare finds in ascending order are so from the first to the last.
compare_loose_less :
    (l m n : Loose)
    → compare_loose l m ≡ negsuc 0
    → compare_loose m n ≡ negsuc 0
    → compare_loose l n ≡ negsuc 0
unfolding compare_loose
compare_loose_less [] [] n h k = absurd (ground (arith, h))
compare_loose_less [] (q ∷ m) [] h k = absurd (ground (arith, k))
compare_loose_less [] (q ∷ m) (r ∷ n) h k = refl
compare_loose_less (p ∷ l) [] n h k = absurd (ground (arith, h))
compare_loose_less (p ∷ l) (q ∷ m) [] h k = absurd (ground (arith, k))
compare_loose_less (p ∷ l) (q ∷ m) (r ∷ n) h k = ground (arith, h, k, compare_loose_less l m n)

-- Compare gives the opposite for the two the other way round, and 0 exactly for equal versions.
compare_loose_order :
    (l m : Loose)
    → (compare_loose l m ≡ opposite (compare_loose m l)) × ((compare_loose l m ≡ pos 0) ↔ (l ≡ m))
compare_loose_order l m = (
  compare_loose-opposite l m,
  (compare_loose_same l m, λ e. subst (λ x. compare_loose l x ≡ pos 0) e (compare_loose_self l)),
)

-- NewLoose panics on every text: it writes into a list of length 0.
new_loose-panic : (s : Str) → new_loose s ≡ panic
unfolding new_loose parse_parts write_at
new_loose-panic s = let (item, rest, e) = split-cases b'.' s in rw e refl
