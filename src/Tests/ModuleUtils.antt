-- ===== src/Tests/ModuleUtils.antt =====
-- Runs of module_utils/.
use gosible.Base.{◌≡◌, refl, ok, err, false, arith}
use gosible.Base.Bits.{bit}
use gosible.GoText.{codes, split, str_eq}
use gosible.ModuleUtils.Mode.{
  FileInfo, symbolic_mode_to_octal, apply_operation_to_mode, bad_symbolic_permission,
}
use gosible.ModuleUtils.Mode.Digits.{owner, letter, bit_after, bit-apply_operation_to_mode}
use gosible.ModuleUtils.Mode.Bounds.{IsMode, symbolic_mode_to_octal-IsMode}

-- 0644, and with the bits for another user and group
abbrev plain : FileInfo
plain = record { mode = 420; is_dir = false }

all_permissions : symbolic_mode_to_octal plain 18 (codes "a=rwx") ≡ ok 511
unfolding symbolic_mode_to_octal split str_eq
all_permissions = refl

by_umask : symbolic_mode_to_octal plain 18 (codes "=rw,u+X") ≡ ok 420
unfolding symbolic_mode_to_octal split str_eq
by_umask = refl

no_such_user :
    symbolic_mode_to_octal plain 18 (codes "k+r") ≡ err (bad_symbolic_permission (codes "k+r"))
unfolding symbolic_mode_to_octal split str_eq
no_such_user = refl

symbolic_mode_to_octal-IsMode_example : IsMode 511
symbolic_mode_to_octal-IsMode_example =
    symbolic_mode_to_octal-IsMode plain 18 (codes "a=rwx") all_permissions

bit-apply_operation_to_mode_example :
    bit 11 (apply_operation_to_mode (letter owner) b'=' 384 2468)
    ≡ bit_after owner b'=' 11 (bit 11 384) (bit 11 2468)
bit-apply_operation_to_mode_example =
    bit-apply_operation_to_mode owner b'=' 11 384 2468 (omega arith) refl
