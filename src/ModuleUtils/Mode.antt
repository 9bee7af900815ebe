-- ===== src/ModuleUtils/Mode.antt =====
-- module_utils/gosibleModule/mode.go: symbolic modes, as chmod has them. An os.FileMode is a
-- uint32. The umask of the process, which the code reads again for each use, is an argument.
pub mod Digits
pub mod Bounds
use Prim.Native.Nat.{bit_and, bit_or, bit_xor}
use gosible.Base.{
  ℕ, ◌-◌, ◌*◌, ◌/◌, ◌%◌, ◌^◌, Bool, not, ◌||◌, List, [], ◌∷◌, ◌==◌, if◌then◌else◌, any_of, is_empty,
  length, Outcome, ok, err, panic, ◌>>=◌,
}
use gosible.GoText.{Str, codes, str_eq, split, push_first}

-- os.ModeSetgid and os.ModeSticky
abbrev pub mode_setgid : ℕ
mode_setgid = 2 ^ 22

abbrev pub mode_sticky : ℕ
mode_sticky = 2 ^ 20

-- the syscall package's bits
abbrev pub s_isuid : ℕ
s_isuid = 2048

abbrev pub s_isgid : ℕ
s_isgid = 1024

abbrev pub s_isvtx : ℕ
s_isvtx = 512

abbrev pub s_irwxu : ℕ
s_irwxu = 448

abbrev pub s_irwxg : ℕ
s_irwxg = 56

abbrev pub s_irwxo : ℕ
s_irwxo = 7

-- module_utils/file
abbrev pub exec_perm_bits : ℕ
exec_perm_bits = 73

abbrev pub perm_bits : ℕ
perm_bits = 511

-- what the code asks of an os.FileInfo
pub record FileInfo : Type 0 where
  pub mode : ℕ
  pub is_dir : Bool

abbrev pub or_if : Bool → ℕ → ℕ → ℕ
or_if test bits o = if test then bit_or o bits else o

-- `i.Perm()` keeps the nine bits of the permissions.
unfoldable pub syscall_mode : ℕ → ℕ
syscall_mode i =
    let o = bit_or 0 (bit_and i perm_bits) in
    let o = or_if (not (bit_and i mode_setgid == 0)) s_isuid o in
    let o = or_if (not (bit_and i mode_setgid == 0)) s_isgid o in
    or_if (not (bit_and i mode_sticky == 0)) s_isvtx o

abbrev pub shift_left : ℕ → ℕ → ℕ
shift_left x k = (x * 2 ^ k) % 2 ^ 32

abbrev pub shift_right : ℕ → ℕ → ℕ
shift_right x k = x / 2 ^ k

-- What getUserPermsToModesMap computes before it makes the map.
pub record PermBits : Type 0 where
  pub prev_mode : ℕ
  pub rev_umask : ℕ
  pub x_applies : Bool

unfoldable pub perm_bits_of : FileInfo → ℕ → Bool → PermBits
unfolding syscall_mode
perm_bits_of stat umask use_umask =
    let prev_mode = syscall_mode stat.mode in
    record {
      prev_mode = prev_mode;
      rev_umask = if use_umask then bit_xor umask perm_bits else 2 ^ 32 - 1;
      x_applies = stat.is_dir || not (bit_and prev_mode exec_perm_bits == 0);
    }

-- the three maps; a key that is missing reads as 0
abbrev pub owner_perms : PermBits → ℕ → ℕ
owner_perms b perm =
    if perm == b'r'
    then bit_and b.rev_umask 256
    else if perm == b'w'
    then bit_and b.rev_umask 128
    else if perm == b'x'
    then bit_and b.rev_umask 64
    else if perm == b's'
    then s_isuid
    else if perm == b'u'
    then bit_and b.prev_mode s_irwxu
    else if perm == b'g'
    then shift_left (bit_and b.prev_mode s_irwxg) 3
    else if perm == b'o'
    then shift_left (bit_and b.prev_mode s_irwxo) 6
    else if perm == b'X'
    then if b.x_applies then 64 else 0
    else 0

abbrev pub group_perms : PermBits → ℕ → ℕ
group_perms b perm =
    if perm == b'r'
    then bit_and b.rev_umask 32
    else if perm == b'w'
    then bit_and b.rev_umask 16
    else if perm == b'x'
    then bit_and b.rev_umask 8
    else if perm == b's'
    then s_isgid
    else if perm == b'u'
    then shift_right (bit_and b.prev_mode s_irwxu) 3
    else if perm == b'g'
    then bit_and b.prev_mode s_irwxg
    else if perm == b'o'
    then shift_left (bit_and b.prev_mode s_irwxo) 3
    else if perm == b'X'
    then if b.x_applies then 8 else 0
    else 0

abbrev pub other_perms : PermBits → ℕ → ℕ
other_perms b perm =
    if perm == b'r'
    then bit_and b.rev_umask 4
    else if perm == b'w'
    then bit_and b.rev_umask 2
    else if perm == b'x'
    then bit_and b.rev_umask 1
    else if perm == b't'
    then s_isvtx
    else if perm == b'u'
    then shift_right (bit_and b.prev_mode s_irwxu) 6
    else if perm == b'g'
    then shift_right (bit_and b.prev_mode s_irwxg) 3
    else if perm == b'o'
    then bit_and b.prev_mode s_irwxo
    else if perm == b'X'
    then if b.x_applies then 1 else 0
    else 0

unfoldable pub user_perms_to_modes : PermBits → ℕ → ℕ → ℕ
user_perms_to_modes b user perm =
    if user == b'u'
    then owner_perms b perm
    else if user == b'g'
    then group_perms b perm
    else if user == b'o'
    then other_perms b perm
    else 0

unfoldable pub or_perms : PermBits → ℕ → Str → ℕ → ℕ
unfolding user_perms_to_modes
or_perms b user [] mode = mode
or_perms b user (perm ∷ perms) mode =
    or_perms b user perms (bit_or mode (user_perms_to_modes b user perm))

unfoldable pub octal_mode_from_symbolic_perms : FileInfo → ℕ → ℕ → Str → Bool → ℕ
unfolding or_perms perm_bits_of
octal_mode_from_symbolic_perms stat umask user perms use_umask =
    or_perms (perm_bits_of stat umask use_umask) user perms 0

-- The last test is for the digit '0', where the code means the letter.
abbrev pub user_mask : ℕ → ℕ
user_mask user =
    if user == b'u'
    then bit_or s_irwxu s_isuid
    else if user == b'g'
    then bit_or s_irwxg s_isgid
    else if user == b'0'
    then bit_or s_irwxo s_isvtx
    else 0

unfoldable pub apply_operation_to_mode : ℕ → ℕ → ℕ → ℕ → ℕ
apply_operation_to_mode user op mode_to_apply current_mode =
    if op == b'='
    then bit_or (bit_and current_mode (bit_xor (user_mask user) perm_bits)) mode_to_apply
    else if op == b'+'
    then bit_or current_mode mode_to_apply
    else if op == b'-'
    then current_mode - bit_and current_mode mode_to_apply
    else 0

-- `[+=-]`, `[^ugo]` and `[^rwxXstugo]`
abbrev pub is_mode_operator : ℕ → Bool
is_mode_operator c = c == b'+' || (c == b'=' || c == b'-')

abbrev pub is_wrong_user : ℕ → Bool
is_wrong_user c = not (any_of (λ u. u == c) (codes "ugo"))

abbrev pub is_illegal_perm : ℕ → Bool
is_illegal_perm c = not (any_of (λ p. p == c) (codes "rwxXstugo"))

-- modeOperatorRe.Split(mode, -1)
unfoldable pub split_operators : Str → List Str
split_operators [] = [] ∷ []
split_operators (c ∷ s) =
    let rest = split_operators s in if is_mode_operator c then [] ∷ rest else push_first c rest

-- modeOperatorRe.FindAllString(mode, -1)
unfoldable pub find_operators : Str → Str
find_operators [] = []
find_operators (c ∷ s) =
    let rest = find_operators s in if is_mode_operator c then c ∷ rest else rest

pub data ModeError : Type 0 where
  wrong_format : ModeError
  bad_symbolic_permission : Str → ModeError

module _ (stat : FileInfo) (umask : ℕ) where
  unfoldable pub apply_users : Str → Str → ℕ → Bool → ℕ → ℕ
  unfolding apply_operation_to_mode octal_mode_from_symbolic_perms
  apply_users [] perms op use_umask new_mode = new_mode
  apply_users (user ∷ users) perms op use_umask new_mode = apply_users users perms op use_umask (
      apply_operation_to_mode user op
        (octal_mode_from_symbolic_perms stat umask user perms use_umask) new_mode)

  -- The loop over the permissions; `opers[i]` is out of range where there are too few operators.
  unfoldable pub apply_perms : Str → Str → Bool → List Str → Str → ℕ → Outcome ModeError ℕ
  unfolding apply_users
  apply_perms mode users use_umask [] opers new_mode = ok new_mode
  apply_perms mode users use_umask (perms ∷ perm_list) [] new_mode =
      if any_of is_illegal_perm perms
      then err (bad_symbolic_permission mode)
      else if is_empty users
      then apply_perms mode users use_umask perm_list [] new_mode
      else panic
  apply_perms mode users use_umask (perms ∷ perm_list) (op ∷ opers) new_mode =
      if any_of is_illegal_perm perms
      then err (bad_symbolic_permission mode)
      else apply_perms mode users use_umask perm_list opers
          (apply_users users perms op use_umask new_mode)

  unfoldable pub apply_mode : Str → List Str → Str → ℕ → Outcome ModeError ℕ
  unfolding apply_perms
  apply_mode mode [] opers new_mode = err wrong_format
  apply_mode mode (first ∷ perm_list) opers new_mode =
      let use_umask = is_empty first in
      let users = if is_empty first || str_eq first (codes "a") then codes "ugo" else first in
      if any_of is_wrong_user users
      then err (bad_symbolic_permission mode)
      else if not (length opers == length perm_list)
      then err (bad_symbolic_permission mode)
      else apply_perms mode users use_umask perm_list opers new_mode

  unfoldable pub apply_modes : List Str → ℕ → Outcome ModeError ℕ
  unfolding apply_mode split_operators find_operators
  apply_modes [] new_mode = ok new_mode
  apply_modes (mode ∷ modes) new_mode =
      apply_mode mode (split_operators mode) (find_operators mode) new_mode >>= apply_modes modes

  unfoldable pub symbolic_mode_to_octal : Str → Outcome ModeError ℕ
  unfolding apply_modes syscall_mode
  symbolic_mode_to_octal symbolic_mode =
      apply_modes (split b',' symbolic_mode) (syscall_mode stat.mode)
