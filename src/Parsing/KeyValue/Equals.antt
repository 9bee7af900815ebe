-- ===== src/Parsing/KeyValue/Equals.antt =====
-- parsing/splitter.go: the search for an equals sign.
use gosible.Base.{
  ℕ, zero, suc, ◌+◌, ◌<◌, ◌≡◌, ◌≢◌, inl, inr, Option, none, some, [], ◌∷◌, arith, get_elem?, ◌==◌,
  Bool-cases, not, ◌&&◌, true, false,
}
use gosible.GoText.{Str}
use gosible.Parsing.KeyValue.{search_equals, find_unescaped_equals_sign_pos}

-- Byte `i + 1` is an equals sign, and byte `i` is no backslash.
abbrev pub IsUnescaped : Str → ℕ → Type 0
IsUnescaped x i = (get_elem? x (suc i) ≡ some 61) × (get_elem? x i ≢ some 92)

-- Where the search from `base` ends: at the first such place, or nowhere.
abbrev pub Finds : ℕ → Str → Option ℕ → Type 0
Finds base x none = (i : ℕ) → ¬ (IsUnescaped x i)
Finds base x (some pos) =
    (i : ℕ) × (pos ≡ base + i) × IsUnescaped x i × ((j : ℕ) → j < i → ¬ (IsUnescaped x j))

miss :
    (before c : ℕ) (rest : Str)
    → ((c == 61) && not (before == 92)) ≡ false
    → ¬ (IsUnescaped (before ∷ c ∷ rest) 0)
miss before c rest h (e, n) = ground arith

later :
    (base before c : ℕ) (rest : Str) (r : Option ℕ)
    → ¬ (IsUnescaped (before ∷ c ∷ rest) 0)
    → Finds (base + 1) (c ∷ rest) r
    → Finds base (before ∷ c ∷ rest) r
later base before c rest none n h = λ i. later_none i
  where
    later_none : (i : ℕ) → ¬ (IsUnescaped (before ∷ c ∷ rest) i)
    later_none zero u = n u
    later_none (suc i) u = h i u
later base before c rest (some pos) n (i, e, u, least) = (suc i, omega arith, u, earlier)
  where
    earlier : (j : ℕ) → j < suc i → ¬ (IsUnescaped (before ∷ c ∷ rest) j)
    earlier zero l v = n v
    earlier (suc j) l v = least j (omega arith) v

here :
    (c before base : ℕ) (rest : Str)
    → ((c == 61) && not (before == 92)) ≡ true
    → Finds base (before ∷ c ∷ rest) (some base)
here c before base rest e =
    (0, omega arith, (ground arith, λ k. ground arith), λ j l. absurd (omega arith))

search_equals-Finds :
    (before base : ℕ) (rest : Str) → Finds base (before ∷ rest) (search_equals before base rest)
unfolding search_equals
search_equals-Finds before base [] = λ i u. nowhere i u.0
  where
    nowhere : (i : ℕ) → get_elem? {A = ℕ} [] i ≢ some 61
    nowhere i e = cc
search_equals-Finds before base (c ∷ rest) = elim (Bool-cases ((c == 61) && not (before == 92))) [
  | inl e ↦ rw e (here c before base rest e)
  | inr e ↦
      rw e
        (later base before c rest _ (miss before c rest e) (search_equals-Finds c (base + 1) rest))
]

-- The position is that of the first equals sign, past the first byte, that no backslash precedes;
-- there is none exactly when every such equals sign is preceded by a backslash.
pub find_unescaped_equals_sign_pos-Finds : (x : Str) → Finds 1 x (find_unescaped_equals_sign_pos x)
unfolding find_unescaped_equals_sign_pos
find_unescaped_equals_sign_pos-Finds [] = λ i u. nothing i u.0
  where
    nothing : (i : ℕ) → get_elem? {A = ℕ} [] (suc i) ≢ some 61
    nothing i e = cc
find_unescaped_equals_sign_pos-Finds (c ∷ x) = search_equals-Finds c 1 x
