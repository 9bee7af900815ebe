-- ===== src/GoText/Laws.antt =====
-- Laws of the string functions.
use gosible.Base.{
  ℕ, ◌≡◌, ◌≢◌, ◌↔◌, refl, ap, ◌∙◌, true, false, ◌||◌, List, [], ◌∷◌, ◌++◌, arith, ◌==◌, Bool-cases,
  inl, inr, All, take, drop, length, suc, ◌+◌,
}
use gosible.GoText.{
  Str, str_eq, contains_byte, split, join, has_prefix, count, count_from, replace_all, replace_from,
}

pub str_eq_iff : (a b : Str) → (str_eq a b ≡ true) ↔ (a ≡ b)
unfolding str_eq
str_eq_iff (x ∷ a) (y ∷ b) = ground (arith, str_eq_iff a b)
str_eq_iff _ _ = ground arith

pub str_eq_refl : (a : Str) → str_eq a a ≡ true
str_eq_refl a = (str_eq_iff a a).1 refl

pub str_eq_ne : (a b : Str) → a ≢ b → str_eq a b ≡ false
str_eq_ne a b h = elim (Bool-cases (str_eq a b)) [
  | inl e ↦ absurd (h ((str_eq_iff a b).0 e))
  | inr e ↦ e
]

pub contains_byte-append :
    (c : ℕ) (a b : Str) → contains_byte c (a ++ b) ≡ (contains_byte c a || contains_byte c b)
unfolding contains_byte
contains_byte-append c [] b = refl
contains_byte-append c (x ∷ a) b = ground (arith, contains_byte-append c a b)

-- A text without the separator is one part.
pub split_none : (c : ℕ) (s : Str) → contains_byte c s ≡ false → split c s ≡ s ∷ []
unfolding split contains_byte
split_none c [] h = refl
split_none c (x ∷ s) h = ground (arith, split_none c s)

-- The part before the first separator is split off.
pub split-append :
    (c : ℕ) (s rest : Str) → contains_byte c s ≡ false → split c (s ++ c ∷ rest) ≡ s ∷ split c rest
unfolding split contains_byte
split-append c [] rest h = ground arith
split-append c (x ∷ s) rest h = ground (arith, split-append c s rest)

-- A part of a text has only bytes of the text.
has_prefix-bytes :
    (x : ℕ) (s sub : Str)
    → contains_byte x s ≡ false
    → contains_byte x sub ≡ true
    → has_prefix s sub ≡ false
unfolding has_prefix contains_byte
has_prefix-bytes x [] (y ∷ sub) h k = refl
has_prefix-bytes x (z ∷ s) (y ∷ sub) h k = ground (arith, has_prefix-bytes x s sub)
has_prefix-bytes x s [] h k = cc

-- No occurrence of a text with a byte that is absent.
pub count_absent :
    (x : ℕ) (s sub : Str) → contains_byte x s ≡ false → contains_byte x sub ≡ true → count s sub ≡ 0
unfolding count count_from contains_byte
count_absent x [] sub h k = refl
count_absent x (y ∷ s) sub h k =
    ground (arith, count_absent x s sub, has_prefix-bytes x (y ∷ s) sub)

pub join-split :
    (c : ℕ) (p : Str) (ps : List Str)
    → All (λ w. contains_byte c w ≡ false) (p ∷ ps)
    → split c (join (c ∷ []) (p ∷ ps)) ≡ p ∷ ps
unfolding join
join-split c p [] h = split_none c p h.0
join-split c p (q ∷ ps) h =
    split-append c p (join (c ∷ []) (q ∷ ps)) h.0 ∙ ap (◌∷◌ p) (join-split c q ps h.1)

pub contains_byte-join :
    (c : ℕ) (sep : Str) (ps : List Str)
    → contains_byte c sep ≡ false
    → All (λ w. contains_byte c w ≡ false) ps
    → contains_byte c (join sep ps) ≡ false
unfolding join contains_byte
contains_byte-join c sep [] k h = refl
contains_byte-join c sep (p ∷ []) k h = h.0
contains_byte-join c sep (p ∷ q ∷ ps) k h = ground (
  arith,
  contains_byte-append c p (sep ++ join sep (q ∷ ps)),
  contains_byte-append c sep (join sep (q ∷ ps)),
  contains_byte-join c sep (q ∷ ps) k h.1,
)

-- There is always a first part.
pub split-cases : (c : ℕ) (s : Str) → (p : Str) × (ps : List Str) × (split c s ≡ p ∷ ps)
unfolding split
split-cases c [] = ([], [], refl)
split-cases c (x ∷ s) =
    let (p, ps, e) = split-cases c s in
    elim (Bool-cases (x == c)) [
      | inl same ↦ ([], split c s, rw same)
      | inr other ↦ (x ∷ p, ps, rw (other, e))
    ]

-- Nothing is replaced where a byte of the replaced text is absent.
pub replace_all_absent :
    (x : ℕ) (s old new : Str)
    → contains_byte x s ≡ false
    → contains_byte x old ≡ true
    → replace_all s old new ≡ s
unfolding replace_all replace_from contains_byte
replace_all_absent x [] old new h k = refl
replace_all_absent x (y ∷ s) old new h k =
    ground (arith, replace_all_absent x s old new, has_prefix-bytes x (y ∷ s) old)

add-suc-one : (n : ℕ) → suc n + 1 ≡ suc (n + 1)
add-suc-one n = omega arith

pub take-append {ℓ} : {A : Type ℓ} (a b : List A) → take (length a) (a ++ b) ≡ a
take-append [] b = refl
take-append (x ∷ a) b = ap (◌∷◌ x) (take-append a b)

pub drop-append {ℓ} :
    {A : Type ℓ} (a : List A) (x : A) (b : List A) → drop (length a + 1) (a ++ x ∷ b) ≡ b
drop-append [] x b = refl
drop-append (y ∷ a) x b = rw (add-suc-one (length a)) (drop-append a x b)
