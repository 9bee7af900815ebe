-- ===== src/Machine/SystemInfo.antt =====
-- utils/sysInfo/sys_info.go. `sys.distribution` is what distro.Id gives.
use gosible.Base.{Bool, true, false, Option, none, some, List, [], ◌∷◌, if◌then◌else◌}
use gosible.GoText.{Str, codes, str_eq}
use gosible.Dict.{Dict, lookup}
use gosible.Machine.{System, Io, pure, ◌>>=◌}
use gosible.Machine.Paths.{exists, get_bin_path}

abbrev pub canaries : List Str
canaries = codes "/run/systemd/system/" ∷ codes "/dev/.run/systemd/" ∷ codes "/dev/.systemd/" ∷ []

module _ (sys : System) where
  unfoldable pub distribution_name : Str
  unfolding str_eq
  distribution_name =
      if str_eq sys.platform (codes "Linux")
      then if str_eq sys.distribution (codes "Amzn")
        then codes "Amazon"
        else if str_eq sys.distribution (codes "Rhel")
        then codes "Redhat"
        else if str_eq sys.distribution []
        then codes "OtherLinux"
        else sys.distribution
      else sys.distribution

  unfoldable pub any_exists : List Str → Io Bool
  unfolding exists
  any_exists [] = pure false
  any_exists (path ∷ paths) =
      exists sys path >>= λ found. if found then pure true else any_exists paths

  -- A machine that has no systemctl is an error.
  unfoldable pub is_systemd_managed : Io Bool
  unfolding get_bin_path any_exists
  is_systemd_managed = get_bin_path sys (codes "systemctl") [] true >>= λ _. any_exists canaries

  abbrev or_fallback {ℓ} : {V : Type ℓ} → Dict V → Option V → Option V
  unfolding lookup
  or_fallback values none = lookup [] values
  or_fallback values (some v) = some v

  -- GetPlatformSpecificValue; `none` is the zero value
  unfoldable pub platform_value {ℓ} : {V : Type ℓ} → Dict (Dict V) → Option V
  unfolding lookup or_fallback distribution_name
  platform_value values = elim (lookup sys.platform values) [
    | none ↦ elim (lookup (codes "Generic") values) [ none ↦ none | some v ↦ lookup [] v ]
    | some v ↦ or_fallback v (lookup distribution_name v)
  ]
