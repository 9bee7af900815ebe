-- ===== src/Base/Result.antt =====
-- The outcome of a Go call: a value, a returned error, or a run-time panic.
use mathlib.Core.Path.{◌≡◌, refl}
use mathlib.Core.Bool.{Bool, true, false}

pub data Outcome {ℓ} (E A : Type ℓ) : Type ℓ where
  ok : A → Outcome E A
  err : E → Outcome E A
  panic : Outcome E A

module _ {ℓ} {E A B : Type ℓ} where
  infixl 5 ◌>>=◌ ◌>>◌
  abbrev pub ◌>>=◌ : Outcome E A → (A → Outcome E B) → Outcome E B
  ok a >>= f = f a
  err e >>= f = err e
  panic >>= f = panic

  abbrev pub ◌>>◌ : Outcome E A → Outcome E B → Outcome E B
  m >> k = m >>= λ _. k

  -- what is returned comes from a call that returns
  pub >>=-eq-ok :
      (call : Outcome E A) (next : A → Outcome E B) {result : B}
      → (call >>= next) ≡ ok result
      → (x : A) × (call ≡ ok x) × (next x ≡ ok result)
  >>=-eq-ok panic next h = cc
  >>=-eq-ok (err e) next h = cc
  >>=-eq-ok (ok x) next h = (x, refl, h)

pub ok-injective {ℓ} : {E A : Type ℓ} {a b : A} → ◌≡◌ {A = Outcome E A} (ok a) (ok b) → a ≡ b
ok-injective h = cc

-- a value, or an error that the caller sees
abbrev pub no_panic {ℓ} : {E A : Type ℓ} → Outcome E A → Bool
no_panic (ok a) = true
no_panic (err e) = true
no_panic panic = false

-- There is no panic, and a value that is returned passes the test.
abbrev pub ensures {ℓ} : {E A : Type ℓ} → (A → Bool) → Outcome E A → Bool
ensures p (ok a) = p a
ensures p (err e) = true
ensures p panic = false

module _ {ℓ} {E A B : Type ℓ} where
  pub ensures-bind :
      (p : A → Bool) (q : B → Bool) (m : Outcome E A) (f : A → Outcome E B)
      → ensures p m ≡ true
      → ((a : A) → p a ≡ true → ensures q (f a) ≡ true)
      → ensures q (m >>= f) ≡ true
  ensures-bind p q (ok a) f h k = k a h
  ensures-bind p q (err e) f h k = refl
  ensures-bind p q panic f h k = cc
