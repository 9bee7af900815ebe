-- ===== src/Modules/Service/Decisions.antt =====
-- modules/service/base_service.go: checkServiceChanged, and the action of modifyServiceState.
use gosible.Modules.Service.Linux.{service_control}
use gosible.Modules.Service.Linux.Runs.{modify_service_state}
use gosible.Base.{◌≡◌, refl, Bool, true, false, Option, none, some, ok, ap}
use gosible.GoText.{Str, codes, str_eq}
use gosible.Machine.{System, Machine}
use gosible.Modules.Service.{
  ServiceParams, ServiceState, is_true, check_service_changed, action_for,
}

pub data Wanted : Type 0 where
  started stopped reloaded restarted : Wanted

abbrev pub state_text : Wanted → Str
state_text started = codes "started"
state_text stopped = codes "stopped"
state_text reloaded = codes "reloaded"
state_text restarted = codes "restarted"

-- the action that brings a service, which runs or not, to the state, if one is needed
abbrev pub needed : Wanted → Bool → Option Str
needed started true = none
needed started false = some (codes "start")
needed stopped true = some (codes "stop")
needed stopped false = none
needed reloaded true = some (codes "reload")
needed reloaded false = some (codes "start")
needed restarted runs = some (codes "restart")

abbrev pub is_needed : Option Str → Bool
is_needed none = false
is_needed (some action) = true

-- `modifyServiceState` takes the action, if there is one
abbrev pub Takes : System → ServiceParams → ServiceState → Machine → Option Str → Type 0
Takes sys p l w none = Unit
Takes sys p l w (some action) = modify_service_state sys p l w ≡ service_control sys p action l w

abbrev IsAction : Str → Option Str → Type 0
IsAction action none = Unit
IsAction action (some a) = action ≡ a

by_state :
    (sys : System) (p : ServiceParams) (wanted : Wanted) (running : Option Bool) (l : ServiceState)
    (w : Machine)
    → p.state ≡ state_text wanted
    → l.running ≡ running
    → (check_service_changed sys p l w ≡ ((l, w), ok (is_needed (needed wanted (is_true running)))))
      × IsAction (action_for sys p running) (needed wanted (is_true running))
unfolding check_service_changed action_for str_eq
by_state sys p started none l w e r = (rw e (rw r refl), rw e refl)
by_state sys p started (some true) l w e r = (rw e (rw r refl), tt)
by_state sys p started (some false) l w e r = (rw e (rw r refl), rw e refl)
by_state sys p stopped none l w e r = (rw e (rw r refl), tt)
by_state sys p stopped (some true) l w e r = (rw e (rw r refl), rw e refl)
by_state sys p stopped (some false) l w e r = (rw e (rw r refl), tt)
by_state sys p reloaded none l w e r = (rw e (rw r refl), rw e refl)
by_state sys p reloaded (some true) l w e r = (rw e (rw r refl), rw e refl)
by_state sys p reloaded (some false) l w e r = (rw e (rw r refl), rw e refl)
by_state sys p restarted none l w e r = (rw e (rw r refl), rw e refl)
by_state sys p restarted (some true) l w e r = (rw e (rw r refl), rw e refl)
by_state sys p restarted (some false) l w e r = (rw e (rw r refl), rw e refl)

IsAction-Takes :
    (sys : System) (p : ServiceParams) (l : ServiceState) (w : Machine) (x : Option Str)
    → IsAction (action_for sys p l.running) x
    → Takes sys p l w x
unfolding modify_service_state
IsAction-Takes sys p l w none h = tt
IsAction-Takes sys p l w (some action) h = ap (λ a. service_control sys p a l w) h

-- For each of the four states, checkServiceChanged finds, without an error, that a change is needed
-- exactly if an action brings the service to the state, and modifyServiceState then takes this
-- action. A service of which it is not known whether it runs counts as one that does not.
pub check_service_changed-modify_service_state :
    (sys : System) (p : ServiceParams) (wanted : Wanted) (l : ServiceState) (w : Machine)
    → p.state ≡ state_text wanted
    → (check_service_changed sys p l w
        ≡ ((l, w), ok (is_needed (needed wanted (is_true l.running)))))
      × Takes sys p l w (needed wanted (is_true l.running))
check_service_changed-modify_service_state sys p wanted l w e =
    let (changed, action) = by_state sys p wanted l.running l w e refl in
    (changed, IsAction-Takes sys p l w (needed wanted (is_true l.running)) action)
