-- ===== src/Modules/Pip.antt =====
-- modules/pip/pip.go: the parameters, and the names of packages.
pub mod Requirements
pub mod Names
pub mod Environment
pub mod Runs
use gosible.Base.{
  ℕ, Bool, true, false, not, ◌&&◌, ◌||◌, Option, none, some, List, [], ◌∷◌, ◌++◌, if◌then◌else◌,
  is_empty, any_of, length, leb, Outcome, ok, err, panic, ◌==◌,
}
use gosible.Base.Int.{ℤ, pos}
use gosible.GoText.{
  Str, codes, str_eq, has_prefix, contains, contains_byte, split, join, trim_space,
}
use gosible.GoText.Numbers.{digits_in, digit_value}
use gosible.Machine.{Fault, failure}

-- Params
pub record PipParams : Type 0 where
  pub chdir : Str
  pub editable : Bool
  pub executable_name : Str
  pub extra_args : Str
  pub package_names : List Str
  pub requirements : Str
  pub state : Str
  pub umask : Str
  pub version : Str
  pub virtualenv : Str
  pub virtualenv_command : Str
  pub virtualenv_python : Str
  pub virtualenv_site_packages : Bool

-- The module has a field Params of its own, besides the one that ParseParams fills in, and New leaves
-- it as it is. Run reads this one.
abbrev pub zero_params : PipParams
zero_params = record {
  chdir = [];
  editable = false;
  executable_name = [];
  extra_args = [];
  package_names = [];
  requirements = [];
  state = [];
  umask = [];
  version = [];
  virtualenv = [];
  virtualenv_command = [];
  virtualenv_python = [];
  virtualenv_site_packages = false;
}

-- what New hands to the part that ParseParams fills in
abbrev pub pip_defaults : PipParams
pip_defaults = record zero_params {
  virtualenv_command = codes "virtualenv";
  state = codes "present";
}

unfoldable pub state_map : Str → Option (List Str)
unfolding str_eq
state_map s =
    if str_eq s (codes "present")
    then some (codes "install" ∷ [])
    else if str_eq s (codes "absent")
    then some (codes "uninstall" ∷ codes "-y" ∷ [])
    else if str_eq s (codes "latest")
    then some (codes "install" ∷ codes "-U" ∷ [])
    else if str_eq s (codes "forcereinstall")
    then some (codes "install" ∷ codes "-U" ∷ codes "--force-reinstall" ∷ [])
    else none

-- `stateMap[s]`, which is nil for another state
abbrev pub state_words : Str → List Str
unfolding state_map
state_words s = elim (state_map s) [ none ↦ [] | some ws ↦ ws ]

abbrev pub known_pip_state : Str → Bool
unfolding state_map
known_pip_state s = elim (state_map s) [ none ↦ false | some ws ↦ true ]

-- Validate
unfoldable pub validate_pip_params : PipParams → Outcome Fault Unit
unfolding known_pip_state str_eq
validate_pip_params p =
    if not (is_empty p.state) && not (known_pip_state p.state)
    then err (failure (codes "unexpected value for 'state'"))
    else if is_empty p.package_names && is_empty p.requirements
    then err (failure (codes "one of 'name', 'requirements' is required"))
    else if not (is_empty p.package_names) && not (is_empty p.requirements)
    then err (failure (codes "only one of 'name', 'requirements' can be set"))
    else if not (is_empty p.executable_name) && not (is_empty p.virtualenv)
    then err (failure (codes "only one of 'executable', 'virtualenv' can be set"))
    else if str_eq p.state (codes "latest") && not (is_empty p.version)
    then err (failure (codes "'version' is incompatible with 'state'=latest"))
    else if not (is_empty p.version) && leb 2 (length p.package_names)
    then err (failure (codes "'version' argument is ambiguous"))
    else ok tt

abbrev pub editable_flag : Str
editable_flag = codes "-e"

unfoldable pub get_extra_args : PipParams → Str
unfolding split join str_eq
get_extra_args p =
    if p.editable
    then (if any_of (str_eq editable_flag) given
        then p.extra_args
        else join (codes " ") (given ++ editable_flag ∷ []))
    else p.extra_args
  where
    given : List Str
    given = if is_empty p.extra_args then [] else split b' ' p.extra_args

-- the regular expression (svn|git|hg|bzr)\+
unfoldable pub is_vcs_url : Str → Bool
unfolding contains
is_vcs_url pkg =
    contains pkg (codes "svn+")
    || contains pkg (codes "git+")
    || contains pkg (codes "hg+")
    || contains pkg (codes "bzr+")

unfoldable pub check_has_vcs : List Str → Bool
unfolding is_vcs_url
check_has_vcs names = any_of (λ pkg. not (is_empty pkg) && is_vcs_url pkg) names

unfoldable pub is_package_name : Str → Bool
unfolding has_prefix trim_space
is_package_name name = not (
    any_of (has_prefix (trim_space name))
      (codes ">=" ∷ codes "<=" ∷ codes ">" ∷ codes "<" ∷ codes "==" ∷ codes "!=" ∷ codes "~=" ∷ []))

unfoldable pub split_names : List Str → List Str
unfolding split
split_names [] = []
split_names (name ∷ names) = split b',' name ++ split_names names

abbrev pub in_brackets_after : Bool → Str → Bool
unfolding contains_byte
in_brackets_after opened name =
    if opened || contains_byte b'[' name then not (contains_byte b']' name) else false

abbrev pub flush : List Str → List Str → List Str
unfolding join
flush [] package_names = package_names
flush (part ∷ parts) package_names = package_names ++ join (codes ",") (part ∷ parts) ∷ []

-- the loop of recoverPackageName, on nameParts, packageNames and inBrackets
unfoldable pub recover_from : List Str → List Str → Bool → List Str → List Str
unfolding is_package_name in_brackets_after flush join
recover_from parts package_names in_brackets [] = package_names ++ join (codes ",") parts ∷ []
recover_from parts package_names in_brackets (name ∷ names) =
    let starts =
      recover_from (name ∷ []) (flush parts package_names) (in_brackets_after in_brackets name)
        names in
    let goes_on =
      recover_from (parts ++ name ∷ []) package_names (in_brackets_after in_brackets name) names in
    if is_package_name name && not in_brackets then starts else goes_on

unfoldable pub recover_package_name : List Str → List Str
unfolding split_names recover_from
recover_package_name names = recover_from [] [] false (split_names names)

-- strconv.ParseInt(s, 8, 32), whether it is no error
abbrev unsigned : Str → Str
unsigned [] = []
unsigned (c ∷ s) = if c == b'-' || c == b'+' then s else c ∷ s

abbrev fits_int32 : Str → Option ℕ → Bool
fits_int32 s none = false
fits_int32 s (some n) = leb n 2147483647 || (has_prefix s (codes "-") && n == 2147483648)

unfoldable pub is_octal : Str → Bool
unfolding has_prefix digits_in contains_byte
is_octal s =
    not (is_empty (unsigned s))
    && not (contains_byte b'_' s)
    && fits_int32 s (digits_in 8 0 (unsigned s))

-- setUmask: the parsed mask is written through a nil pointer
unfoldable pub set_umask : PipParams → Outcome Fault Unit
unfolding is_octal
set_umask p =
    if is_empty p.umask
    then ok tt
    else if is_octal p.umask
    then panic
    else err (failure (codes "umask must be an octal integer"))
