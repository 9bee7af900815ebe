-- ===== src/ModuleUtils/Mode/Digits.antt =====
-- module_utils/gosibleModule/mode.go: the operations on modes, bit by bit.
use Prim.Native.Nat.{bit_and, bit_or, bit_xor}
use gosible.Base.{
  ℕ, ◌<◌, ◌≡◌, refl, ◌∙◌, inl, inr, Bool, true, false, not, ◌&&◌, ◌||◌, arith, ◌==◌, ltb, leb,
  if◌then◌else◌, Bool-cases, ap,
}
use gosible.Base.Bits.{bit, bit-bit_or, bit-bit_and, bit-minus, all_below, all_below_sound}
use gosible.ModuleUtils.Mode.{perm_bits, user_mask, is_mode_operator, apply_operation_to_mode}

pub data Who : Type 0 where
  owner group others : Who

abbrev pub letter : Who → ℕ
letter owner = b'u'
letter group = b'g'
letter others = b'o'

-- The bits that `=` leaves as they are. The owner's are not the set-user-id bit's, 11, and those
-- of a group not the set-group-id bit's, 10, since the code inverts in nine bits only.
abbrev pub is_kept : Who → ℕ → Bool
is_kept owner i = ltb i 6 || i == 11
is_kept group i = (ltb i 3 || i == 10) || (leb 6 i && ltb i 9)
is_kept others i = ltb i 9

-- a bit of the mode after an operation
abbrev pub bit_after : Who → ℕ → ℕ → Bool → Bool → Bool
bit_after who op i given current =
    if op == b'='
    then (current && is_kept who i) || given
    else if op == b'+'
    then current || given
    else current && not given

abbrev same : Bool → Bool → Bool
same true b = b
same false b = not b

same-eq : (a b : Bool) → same a b ≡ true → a ≡ b
same-eq true b h = ground arith
same-eq false b h = ground arith

abbrev kept_test : Who → ℕ → Bool
kept_test who i = same (bit i (bit_xor (user_mask (letter who)) perm_bits)) (is_kept who i)

kept_table : (who : Who) → all_below 12 (kept_test who) ≡ true
kept_table owner = refl
kept_table group = refl
kept_table others = refl

kept_mask :
    (who : Who) (i : ℕ)
    → i < 12
    → bit i (bit_xor (user_mask (letter who)) perm_bits) ≡ is_kept who i
kept_mask who i h = same-eq _ _ (all_below_sound 12 (kept_test who) i (kept_table who) h)

-- Each of the twelve bits of a mode after an operation for a user is made of the given bit and the
-- bit from before: `+` is or, `-` is and not, and `=` is the given bit, or the one from before
-- where the bit is kept.
pub bit-apply_operation_to_mode :
    (who : Who) (op i given current : ℕ)
    → i < 12
    → is_mode_operator op ≡ true
    → bit i (apply_operation_to_mode (letter who) op given current)
      ≡ bit_after who op i (bit i given) (bit i current)
unfolding apply_operation_to_mode
bit-apply_operation_to_mode who op i given current h is_op = elim (Bool-cases (op == b'=')) [
  | inl e ↦ rw e assigned
  | inr e ↦ elim (Bool-cases (op == b'+')) [
    | inl p ↦ rw e (rw p (bit-bit_or i current given))
    | inr p ↦ elim (Bool-cases (op == b'-')) [
      | inl m ↦ rw e (rw p (rw m (bit-minus i current given)))
      | inr m ↦ absurd (ground arith)
    ]
  ]
]
  where
    assigned :
        bit i (bit_or (bit_and current (bit_xor (user_mask (letter who)) perm_bits)) given)
        ≡ ((bit i current && is_kept who i) || bit i given)
    assigned =
        bit-bit_or i _ given
        ∙ ap (λ x. x || bit i given)
            (bit-bit_and i current _ ∙ ap (λ x. bit i current && x) (kept_mask who i h))
