-- ===== src/Modules/Service/Linux/Runs.antt =====
-- modules/service/service.go: Run, on Linux, the one platform that has an implementation.
use gosible.Base.{
  Bool, true, false, not, ◌&&◌, ◌||◌, Option, none, some, [], ◌∷◌, if◌then◌else◌, is_empty, Outcome,
  ok, err, panic,
}
use gosible.Base.Int.{pos, eq_ℤ}
use gosible.GoText.{Str, codes, contains}
use gosible.Dict.{insert, lookup}
use gosible.Values.{Vars, str}
use gosible.Machine.{System, Machine, RunResult, Return, Fault, failure, Io, or_failed, fail, crash}
use gosible.Machine.SystemInfo.{platform_value}
use gosible.Modules.Service.{
  ServiceParams, ServiceState, new_service, Act, ◌>>=◌, done, fails, panics, catch, one_of,
  check_ps, check_service_changed, has_changed, action_for, get_state,
}
use gosible.Modules.Service.Linux.{get_service_tools, service_control, get_service_status}
use gosible.Modules.Service.Linux.Enable.{service_enable}

-- prepareVars
unfoldable pub prepare_service_vars : Vars → Vars
unfolding lookup insert
prepare_service_vars vars = elim (lookup (codes "args") vars) [
  | some (str v) ↦ insert (codes "arguments") (str v) vars
  | _ ↦ vars
]

abbrev is_none {ℓ} : {A : Type ℓ} → Option A → Bool
is_none none = true
is_none (some a) = false

-- Params.Validate
unfoldable pub validate_service_params : ServiceParams → Outcome Fault Unit
unfolding one_of
validate_service_params p =
    if is_empty p.name
    then err (failure (codes "name must be provided"))
    else if is_empty p.state && is_none p.enabled
    then err (failure (codes "state or enabled must be set"))
    else if not (is_empty p.state)
        && not (
            one_of (codes "started" ∷ codes "stopped" ∷ codes "reloaded" ∷ codes "restarted" ∷ [])
              p.state)
    then err (failure (codes "state must be one of the four"))
    else ok tt

-- Return: what Run collects, and gives to nobody
pub record ServiceReturn : Type 0 where
  pub changed : Bool
  pub state : Str
  pub enabled : Bool

-- checkRc, on the nil result of a call that fails as well
unfoldable pub check_rc : Option RunResult → Act Unit
unfolding contains
check_rc none = panics
check_rc (some r) =
    if eq_ℤ r.rc (pos 0)
    then done tt
    else if is_empty r.stderr
    then fails (failure r.stdout)
    else if contains r.stderr (codes "Job is already running")
    then done tt
    else fails (failure r.stderr)

abbrev started_state : Option Bool → Str
started_state none = codes "absent"
started_state (some true) = codes "stopped"
started_state (some false) = codes "started"

module _ (sys : System) (p : ServiceParams) where
  abbrev enabled_in : Option Bool → ServiceReturn → Act ServiceReturn
  unfolding service_enable
  enabled_in none ret = done ret
  enabled_in (some enable) ret =
      service_enable sys p enable >>= λ _. done (record ret { enabled = enable })

  unfoldable pub handle_service_enabled : ServiceReturn → Act ServiceReturn
  unfolding enabled_in
  handle_service_enabled ret = enabled_in p.enabled ret

  -- The state of a service that runs is called stopped here; no caller comes with no state.
  unfoldable pub add_state_to_return : ServiceReturn → Act ServiceReturn
  unfolding get_service_status one_of
  add_state_to_return ret =
      if is_empty p.state
      then (get_service_status sys p >>= λ status.
          done (record ret { state = started_state status }))
      else done (record ret {
        state =
            if one_of (codes "reloaded" ∷ codes "restarted" ∷ codes "started" ∷ []) p.state
            then codes "started"
            else codes "stopped";
      })

  unfoldable pub modify_service_state : Act (Option RunResult)
  unfolding action_for service_control
  modify_service_state = get_state >>= λ l. service_control sys p (action_for sys p l.running)

  abbrev result_or_nil : Outcome Fault (Option RunResult) → Act (Option RunResult)
  result_or_nil (ok r) = done r
  result_or_nil (err e) = done none
  result_or_nil panic = panics

  abbrev find_running : Act Unit
  unfolding check_ps get_service_status
  find_running =
      if is_empty p.pattern then (get_service_status sys p >>= λ _. done tt) else check_ps sys p

  -- the part of Run for a state that is asked for
  unfoldable pub change_state : ServiceReturn → Act ServiceReturn
  unfolding find_running check_service_changed modify_service_state check_rc has_changed
      add_state_to_return
  change_state ret = find_running >>= λ _. check_service_changed sys p >>= λ svc_changed.
      (if svc_changed then (catch modify_service_state >>= result_or_nil >>= check_rc) else done tt)
      >>= λ _. has_changed sys p >>= λ changed.
          add_state_to_return (record ret { changed = changed || svc_changed; state = p.state })

  unfoldable pub run_service_body : Act ServiceReturn
  unfolding get_service_tools handle_service_enabled change_state has_changed
  run_service_body = get_service_tools sys p >>= λ _.
      handle_service_enabled (record { changed = false; state = []; enabled = false }) >>= λ ret.
      if is_empty p.state
      then (has_changed sys p >>= λ changed. done (record ret { changed = changed }))
      else change_state ret

  abbrev drop_return :
      (ServiceState × Machine) × Outcome Fault ServiceReturn → Machine × Outcome Fault Return
  drop_return ((l, w), ok ret) = (w, ok w.ret)
  drop_return ((l, w), err e) = (w, err e)
  drop_return ((l, w), panic) = (w, panic)

  abbrev valid_then : Outcome Fault Unit → Io Return → Io Return
  valid_then (ok _) m = m
  valid_then (err e) m = fail e
  valid_then panic m = crash

  abbrev is_linux : Option Str → Bool
  is_linux none = false
  is_linux (some _) = true

  -- Run, for parameters that have been decoded. What was collected is not put into the return value.
  unfoldable pub run_service : Io Return
  unfolding or_failed validate_service_params run_service_body platform_value
  run_service = or_failed (
      valid_then (validate_service_params p) (
        if is_linux (platform_value sys ((codes "Linux", ([], codes "linux") ∷ []) ∷ []))
        then (λ w. drop_return (run_service_body new_service w))
        else fail (failure (codes "service module cannot be used on platform"))))
