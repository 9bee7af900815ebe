-- ===== src/Parallel.antt =====
-- utils/parallel/parallel.go: a function on all values at once, and its errors.
pub mod Order
use gosible.Base.{
  ℕ, zero, suc, ◌==◌, Bool, true, false, ◌||◌, Option, none, some, List, [], ◌∷◌, ◌++◌,
  if◌then◌else◌, length,
}

module _ {ℓ} {E : Type ℓ} where
  -- a nil error is `none`
  unfoldable pub is_error : List (Option E) → Bool
  is_error [] = false
  is_error (none ∷ es) = is_error es
  is_error (some e ∷ es) = true

  -- fmt.Errorf("%s\n%w", cErr, err): the errors, the latest first
  unfoldable pub combine_onto : List E → List (Option E) → List E
  combine_onto err [] = err
  combine_onto err (none ∷ es) = combine_onto err es
  combine_onto err (some e ∷ es) = combine_onto (e ∷ err) es

  -- Combine, as the list of the errors that its text joins; a nil result is the empty list
  unfoldable pub combine : List (Option E) → List E
  unfolding combine_onto
  combine es = combine_onto [] es

  -- errors[idx] = err
  unfoldable pub set_at : ℕ → Option E → List (Option E) → List (Option E)
  set_at i e [] = []
  set_at zero e (x ∷ xs) = e ∷ xs
  set_at (suc i) e (x ∷ xs) = x ∷ set_at i e xs

  unfoldable pub make_errors : ℕ → List (Option E)
  make_errors zero = []
  make_errors (suc n) = none ∷ make_errors n

  -- `count` receives, in the order of the arrivals; without an arrival the receive blocks, which is
  -- `none`
  unfoldable pub receive : ℕ → List (ℕ × Option E) → List (Option E) → Option (List (Option E))
  unfolding set_at
  receive zero arrivals errors = some errors
  receive (suc n) [] errors = none
  receive (suc n) ((i, e) ∷ arrivals) errors = receive n arrivals (set_at i e errors)

  -- what comes out of the channel, in the order of its arrival
  unfoldable pub combine_errors : List (ℕ × Option E) → ℕ → Option (List (Option E))
  unfolding receive make_errors
  combine_errors arrivals count = receive count arrivals (make_errors count)

module _ {ℓ} {V E : Type ℓ} where
  -- what the goroutines send, in the order of the values
  unfoldable pub results_from : ℕ → List V → (V → Option E) → List (ℕ × Option E)
  results_from i [] f = []
  results_from i (v ∷ vs) f = (i, f v) ∷ results_from (suc i) vs f

  -- ForAll, where `arrange` brings what the goroutines send into the order in which it arrives
  unfoldable pub for_all :
      (List (ℕ × Option E) → List (ℕ × Option E))
      → List V
      → (V → Option E)
      → Option (List (Option E))
  unfolding combine_errors results_from
  for_all arrange vs f = combine_errors (arrange (results_from 0 vs f)) (length vs)
