-- ===== src/ModuleUtils/Mode/Bounds.antt =====
-- module_utils/gosibleModule/mode.go: how many bits the modes that it computes have.
use Prim.Native.Nat.{bit_and, bit_or}
use gosible.Base.{
  ℕ, ◌^◌, ◌<◌, ◌≡◌, ◌∷◌, [], List, Bool, true, false, arith, ok, >>=-eq-ok, ok-injective, inl, inr,
  Bool-cases, ◌==◌, not, subst,
}
use gosible.Base.Bits.{bit_and-le, bit_or-lt}
use gosible.GoText.{Str, split}
use gosible.ModuleUtils.Mode.{
  FileInfo, PermBits, mode_sticky, mode_setgid, or_if, s_isuid, s_isgid, s_isvtx, perm_bits,
  perm_bits_of, syscall_mode, owner_perms, group_perms, other_perms, user_perms_to_modes, or_perms,
  octal_mode_from_symbolic_perms, apply_operation_to_mode, apply_users, apply_perms, apply_mode,
  apply_modes, symbolic_mode_to_octal, split_operators, find_operators,
}

abbrev pub IsMode : ℕ → Type 0
IsMode mode = mode < 2 ^ 12

or-IsMode : (a b : ℕ) → IsMode a → IsMode b → IsMode (bit_or a b)
or-IsMode a b p q = bit_or-lt 12 a b p q

or_if-IsMode : (test : Bool) (bits o : ℕ) → IsMode bits → IsMode o → IsMode (or_if test bits o)
or_if-IsMode true bits o b h = or-IsMode o bits h b
or_if-IsMode false bits o b h = h

syscall_mode-IsMode : (i : ℕ) → IsMode (syscall_mode i)
unfolding syscall_mode
syscall_mode-IsMode i = or_if-IsMode (not (bit_and i mode_sticky == 0)) s_isvtx _ (omega arith) (
    or_if-IsMode (not (bit_and i mode_setgid == 0)) s_isgid _ (omega arith) (
      or_if-IsMode (not (bit_and i mode_setgid == 0)) s_isuid _ (omega arith)
        (or-IsMode 0 (bit_and i perm_bits) (omega arith) (omega (arith, bit_and-le i perm_bits)))))

owner_perms-IsMode : (b : PermBits) (perm : ℕ) → IsMode (owner_perms b perm)
owner_perms-IsMode b perm = ground (
  arith,
  bit_and-le b.rev_umask 256,
  bit_and-le b.rev_umask 128,
  bit_and-le b.rev_umask 64,
  bit_and-le b.prev_mode 448,
  bit_and-le b.prev_mode 56,
  bit_and-le b.prev_mode 7,
)

group_perms-IsMode : (b : PermBits) (perm : ℕ) → IsMode (group_perms b perm)
group_perms-IsMode b perm = ground (
  arith,
  bit_and-le b.rev_umask 32,
  bit_and-le b.rev_umask 16,
  bit_and-le b.rev_umask 8,
  bit_and-le b.prev_mode 448,
  bit_and-le b.prev_mode 56,
  bit_and-le b.prev_mode 7,
)

other_perms-IsMode : (b : PermBits) (perm : ℕ) → IsMode (other_perms b perm)
other_perms-IsMode b perm = ground (
  arith,
  bit_and-le b.rev_umask 4,
  bit_and-le b.rev_umask 2,
  bit_and-le b.rev_umask 1,
  bit_and-le b.prev_mode 448,
  bit_and-le b.prev_mode 56,
  bit_and-le b.prev_mode 7,
)

user_perms_to_modes-IsMode :
    (b : PermBits) (user perm : ℕ) → IsMode (user_perms_to_modes b user perm)
unfolding user_perms_to_modes
user_perms_to_modes-IsMode b user perm = elim (Bool-cases (user == b'u')) [
  | inl e ↦ rw e (owner_perms-IsMode b perm)
  | inr e ↦ elim (Bool-cases (user == b'g')) [
    | inl g ↦ rw e (rw g (group_perms-IsMode b perm))
    | inr g ↦ elim (Bool-cases (user == b'o')) [
      | inl o ↦ rw e (rw g (rw o (other_perms-IsMode b perm)))
      | inr o ↦ rw e (rw g (rw o (omega arith)))
    ]
  ]
]

or_perms-IsMode :
    (b : PermBits) (user : ℕ) (perms : Str) (mode : ℕ)
    → IsMode mode
    → IsMode (or_perms b user perms mode)
unfolding or_perms
or_perms-IsMode b user [] mode h = h
or_perms-IsMode b user (perm ∷ perms) mode h =
    or_perms-IsMode b user perms _ (or-IsMode mode _ h (user_perms_to_modes-IsMode b user perm))

apply_operation_to_mode-IsMode :
    (user op given current : ℕ)
    → IsMode given
    → IsMode current
    → IsMode (apply_operation_to_mode user op given current)
unfolding apply_operation_to_mode
apply_operation_to_mode-IsMode user op given current g c = elim (Bool-cases (op == b'=')) [
  | inl e ↦ rw e (or-IsMode _ given (omega (arith, bit_and-le current _)) g)
  | inr e ↦ elim (Bool-cases (op == b'+')) [
    | inl p ↦ rw e (rw p (or-IsMode current given c g))
    | inr p ↦ elim (Bool-cases (op == b'-')) [
      | inl m ↦ rw e (rw p (rw m (omega arith)))
      | inr m ↦ rw e (rw p (rw m (omega arith)))
    ]
  ]
]

module _ (stat : FileInfo) (umask : ℕ) where
  given-IsMode :
      (user : ℕ) (perms : Str) (use_umask : Bool)
      → IsMode (octal_mode_from_symbolic_perms stat umask user perms use_umask)
  unfolding octal_mode_from_symbolic_perms
  given-IsMode user perms use_umask =
      or_perms-IsMode (perm_bits_of stat umask use_umask) user perms 0 (omega arith)

  apply_users-IsMode :
      (users perms : Str) (op : ℕ) (use_umask : Bool) (mode : ℕ)
      → IsMode mode
      → IsMode (apply_users stat umask users perms op use_umask mode)
  unfolding apply_users
  apply_users-IsMode [] perms op use_umask mode h = h
  apply_users-IsMode (user ∷ users) perms op use_umask mode h =
      apply_users-IsMode users perms op use_umask _
        (apply_operation_to_mode-IsMode user op _ mode (given-IsMode user perms use_umask) h)

  apply_perms-IsMode :
      (mode users : Str) (use_umask : Bool) (perm_list : List Str) (opers : Str) (old new : ℕ)
      → IsMode old
      → apply_perms stat umask mode users use_umask perm_list opers old ≡ ok new
      → IsMode new
  unfolding apply_perms
  apply_perms-IsMode mode users use_umask [] opers old new h e = subst IsMode (ok-injective e) h
  apply_perms-IsMode mode users use_umask (perms ∷ perm_list) [] old new h e =
      ground (arith, apply_perms-IsMode mode users use_umask perm_list [] old new h)
  apply_perms-IsMode mode users use_umask (perms ∷ perm_list) (op ∷ opers) old new h e = ground (
    arith,
    apply_perms-IsMode mode users use_umask perm_list opers _ new
        (apply_users-IsMode users perms op use_umask old h),
  )

  apply_mode-IsMode :
      (mode : Str) (parts : List Str) (opers : Str) (old new : ℕ)
      → IsMode old
      → apply_mode stat umask mode parts opers old ≡ ok new
      → IsMode new
  unfolding apply_mode
  apply_mode-IsMode mode [] opers old new h e = cc
  apply_mode-IsMode mode (first ∷ perm_list) opers old new h e = grind (
    arith,
    λ (users : Str) (use_umask : Bool).
        apply_perms-IsMode mode users use_umask perm_list opers old new h,
  )

  apply_modes-IsMode :
      (modes : List Str) (old : ℕ) {new : ℕ}
      → IsMode old
      → apply_modes stat umask modes old ≡ ok new
      → IsMode new
  unfolding apply_modes
  apply_modes-IsMode [] old h e = subst IsMode (ok-injective e) h
  apply_modes-IsMode (mode ∷ modes) old h e =
      let (next, e, f) =
        >>=-eq-ok (apply_mode stat umask mode (split_operators mode) (find_operators mode) old)
          (apply_modes stat umask modes) e in
      apply_modes-IsMode modes next
        (apply_mode-IsMode mode (split_operators mode) (find_operators mode) old next h e) f

  -- A symbolic mode that is accepted gives a mode of twelve bits, for every mode of the file and
  -- every umask.
  pub symbolic_mode_to_octal-IsMode :
      (symbolic_mode : Str) {new : ℕ}
      → symbolic_mode_to_octal stat umask symbolic_mode ≡ ok new
      → IsMode new
  unfolding symbolic_mode_to_octal
  symbolic_mode_to_octal-IsMode symbolic_mode e =
      apply_modes-IsMode (split b',' symbolic_mode) _ (syscall_mode-IsMode stat.mode) e
