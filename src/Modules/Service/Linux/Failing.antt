-- ===== src/Modules/Service/Linux/Failing.antt =====
-- modules/service/linux_service.go: getServiceTools for a service without an init script.
use gosible.Base.{
  ◌≡◌, refl, ap, ◌∙◌, Bool, true, false, none, List, [], ◌∷◌, ◌++◌, Outcome, ok, err, panic,
}
use gosible.GoText.{Str, codes}
use gosible.Dict.{lookup}
use gosible.Machine.{System, Machine, HostState, Fault, not_exist, Io, stat}
use gosible.Machine.Paths.{is_regular, get_bin_path}
use gosible.Machine.Quiet.{Gives, Any, get_bin_path-Gives}
use gosible.Modules.Service.{ServiceParams, ServiceState, Act, continue_act, io, beside}
use gosible.Modules.Service.Linux.{locate, tool_paths, binaries, get_service_tools}

-- whether a call returns a value
abbrev pub returns : {A : Type 0} → (ServiceState × Machine) × Outcome Fault A → Bool
returns (s, ok a) = true
returns (s, err e) = false
returns (s, panic) = false

abbrev Keeps : {A : Type 0} → HostState → (ServiceState × Machine) × Outcome Fault A → Type 0
Keeps h (s, r) = s.1.host ≡ h

module _ {A B : Type 0} (h : HostState) where
  continue-returns :
      (r : (ServiceState × Machine) × Outcome Fault A) (f : A → Act B)
      → Keeps h r
      → ((a : A) (l : ServiceState) (w : Machine) → w.host ≡ h → returns (f a l w) ≡ false)
      → returns (continue_act r f) ≡ false
  continue-returns ((l, w), ok a) f k g = g a l w k
  continue-returns (s, err e) f k g = refl
  continue-returns (s, panic) f k g = refl

module _ {A : Type 0} (h : HostState) where
  io-Keeps :
      (m : Io A) (l : ServiceState) (w : Machine) → Gives h Any m → w.host ≡ h → Keeps h (io m l w)
  io-Keeps m l w g e = go (m w) (g w e).0
    where
      go : (r : Machine × Outcome Fault A) → r.0.host ≡ h → Keeps h (beside l r)
      go (w, r) e = e

module _ {A B : Type 0} (h : HostState) where
  continue-Keeps :
      (r : (ServiceState × Machine) × Outcome Fault A) (f : A → Act B)
      → Keeps h r
      → ((a : A) (l : ServiceState) (w : Machine) → w.host ≡ h → Keeps h (f a l w))
      → Keeps h (continue_act r f)
  continue-Keeps ((l, w), ok a) f k g = g a l w k
  continue-Keeps (s, err e) f k g = k
  continue-Keeps (s, panic) f k g = k

module _ (sys : System) (p : ServiceParams) (h : HostState) where
  locate-Keeps :
      (bs : List Str) (l : ServiceState) (w : Machine) → w.host ≡ h → Keeps h (locate sys p bs l w)
  unfolding locate
  locate-Keeps [] l w e = e
  locate-Keeps (b ∷ bs) l w e =
      continue-Keeps h (io (get_bin_path sys b tool_paths false) l w) _
        (io-Keeps h (get_bin_path sys b tool_paths false) l w
          (get_bin_path-Gives h sys b tool_paths false) e)
        (λ path l w e.
          continue-Keeps h (locate sys p bs l w) _ (locate-Keeps bs l w e) (λ rest l w e. e))

  is_regular_missing :
      (path : Str) (w : Machine)
      → lookup path w.host.files ≡ none
      → is_regular sys path w ≡ (w, err not_exist)
  unfolding is_regular stat
  is_regular_missing path w n = rw missing refl
    where
      missing : stat sys path w ≡ (w, err not_exist)
      missing = rw (stat, n) refl

  -- Where there is no init script of the service, its tools are not found: the test whether the
  -- script is a regular file is an error, on every system and whatever else there is.
  pub get_service_tools_no_script :
      (l : ServiceState) (w : Machine)
      → w.host ≡ h
      → lookup (codes "/etc/init.d/" ++ p.name) h.files ≡ none
      → returns (get_service_tools sys p l w) ≡ false
  unfolding get_service_tools
  get_service_tools_no_script l w e n =
      continue-returns h (locate sys p binaries l w) _ (locate-Keeps binaries l w e)
        (λ location l w e.
          rw
            (is_regular_missing (codes "/etc/init.d/" ++ p.name) w
              (ap (λ (h : HostState). lookup (codes "/etc/init.d/" ++ p.name) h.files) e ∙ n))
            refl)
