-- ===== src/Base/Bits.antt =====
-- The binary digits of native numbers: `bit_and`, `bit_or` and `bit_xor` digit by digit.
use Prim.Native.Nat.{
  bit_and-bitwise, bit_or-bitwise, ℕ, zero, suc, ◌-◌, ◌/◌, ◌%◌, ◌^◌, ◌≤◌, ◌<◌, min, max, bit_and,
  bit_or, digits,
}
use mathlib.Core.Path.{◌≡◌, refl}
use mathlib.Core.Bool.{Bool, true, false, not, ◌&&◌, ◌||◌}
use native.Mathlib.Omega.{arith}
use native.Mathlib.Nat.{pow-suc}
use gosible.Base.Tests.{◌==◌}

-- the digit at position `i`, from the lowest
abbrev pub bit : ℕ → ℕ → Bool
bit zero x = x % 2 == 1
bit (suc i) x = bit i (x / 2)

bit-zero : (i : ℕ) → bit i 0 ≡ false
bit-zero zero = refl
bit-zero (suc i) = bit-zero i

-- The operations are a recursion with `n` digits to go, of which the first number needs no more.
abbrev either : ℕ → ℕ → ℕ → ℕ
either n a b = digits (λ y. y) max n a b

abbrev both : ℕ → ℕ → ℕ → ℕ
both n a b = digits (λ y. 0) min n a b

bit-either : (n i a b : ℕ) → a ≤ n → bit i (either n a b) ≡ (bit i a || bit i b)
bit-either zero i zero b h = rw (bit-zero i) refl
bit-either zero i (suc a) b h = absurd (omega arith)
bit-either (suc n) i zero b h = rw (bit-zero i) refl
bit-either (suc n) zero (suc a) b h = ground arith
bit-either (suc n) (suc i) (suc a) b h = rw rest (bit-either n i (suc a / 2) (b / 2) (omega arith))
  where
    rest : either (suc n) (suc a) b / 2 ≡ either n (suc a / 2) (b / 2)
    rest = omega arith

both-le : (n a b : ℕ) → (both n a b ≤ a) × (both n a b ≤ b)
both-le zero a b = omega arith
both-le (suc n) zero b = omega arith
both-le (suc n) (suc a) b = omega (arith, both-le n (suc a / 2) (b / 2))

bit-both : (n i a b : ℕ) → a ≤ n → bit i (both n a b) ≡ (bit i a && bit i b)
bit-both zero i zero b h = rw (bit-zero i) refl
bit-both zero i (suc a) b h = absurd (omega arith)
bit-both (suc n) i zero b h = rw (bit-zero i) refl
bit-both (suc n) zero (suc a) b h = ground arith
bit-both (suc n) (suc i) (suc a) b h = rw rest (bit-both n i (suc a / 2) (b / 2) (omega arith))
  where
    rest : both (suc n) (suc a) b / 2 ≡ both n (suc a / 2) (b / 2)
    rest = omega arith

bit-without_both : (n i a b : ℕ) → a ≤ n → bit i (a - both n a b) ≡ (bit i a && not (bit i b))
bit-without_both zero i zero b h = rw (bit-zero i) refl
bit-without_both zero i (suc a) b h = absurd (omega arith)
bit-without_both (suc n) i zero b h = rw (bit-zero i) refl
bit-without_both (suc n) zero (suc a) b h = ground (arith, both-le n (suc a / 2) (b / 2))
bit-without_both (suc n) (suc i) (suc a) b h =
    rw rest (bit-without_both n i (suc a / 2) (b / 2) (omega arith))
  where
    rest : (suc a - both (suc n) (suc a) b) / 2 ≡ suc a / 2 - both n (suc a / 2) (b / 2)
    rest = omega (arith, both-le n (suc a / 2) (b / 2))

either-lt : (n k a b : ℕ) → a < 2 ^ k → b < 2 ^ k → either n a b < 2 ^ k
either-lt zero k a b p q = q
either-lt (suc n) k zero b p q = q
either-lt (suc n) zero (suc a) b p q = absurd (omega arith)
either-lt (suc n) (suc k) (suc a) b p q = omega (
  arith,
  pow-suc 2 k,
  either-lt n k (suc a / 2) (b / 2) (omega (arith, pow-suc 2 k)) (omega (arith, pow-suc 2 k)),
)

pub bit-bit_or : (i a b : ℕ) → bit i (bit_or a b) ≡ (bit i a || bit i b)
bit-bit_or i a b = simp bit_or-bitwise (bit-either a i a b (omega arith))

pub bit-bit_and : (i a b : ℕ) → bit i (bit_and a b) ≡ (bit i a && bit i b)
bit-bit_and i a b = simp bit_and-bitwise (bit-both a i a b (omega arith))

pub bit_and-le : (a b : ℕ) → (bit_and a b ≤ a) × (bit_and a b ≤ b)
bit_and-le a b = simp bit_and-bitwise (both-le a a b)

-- taking away the digits in common is clearing them
pub bit-minus : (i a b : ℕ) → bit i (a - bit_and a b) ≡ (bit i a && not (bit i b))
bit-minus i a b = simp bit_and-bitwise (bit-without_both a i a b (omega arith))

pub bit_or-lt : (k a b : ℕ) → a < 2 ^ k → b < 2 ^ k → bit_or a b < 2 ^ k
bit_or-lt k a b p q = simp bit_or-bitwise (either-lt a k a b p q)

-- a test that every number below `n` passes
abbrev pub all_below : ℕ → (ℕ → Bool) → Bool
all_below zero p = true
all_below (suc n) p = p n && all_below n p

pub all_below_sound : (n : ℕ) (p : ℕ → Bool) (x : ℕ) → all_below n p ≡ true → x < n → p x ≡ true
all_below_sound zero p x h lt = absurd (omega arith)
all_below_sound (suc n) p x h lt = ground (arith, all_below_sound n p x)
