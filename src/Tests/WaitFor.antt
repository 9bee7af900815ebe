-- ===== src/Tests/WaitFor.antt =====
-- Runs of modules/waitFor/wait_for.go.
use gosible.Base.{
  ℕ, true, false, none, some, [], ◌∷◌, ◌≡◌, refl, ok, err, arith, Option, Outcome, ◌+◌, panic,
}
use gosible.Base.Int.{ℤ, pos, negsuc, ◌≤ℤ◌, ◌+ℤ◌, ◌*ℤ◌, +ℤ_parts}
use gosible.GoText.{codes}
use gosible.Machine.{failure, not_exist, Fault}
use gosible.Modules.WaitFor.{WaitParams, wait_defaults, Event, Trace, Surroundings, NetFault}
use gosible.Modules.WaitFor.Waiting.{
  seconds, run_wait_for, wait_for_state, handle_started_present_state, Found, closed_with,
}
use gosible.Modules.WaitFor.Keeping.{Ends}
use gosible.Modules.WaitFor.Idle.{IsIdle, run_wait_for-IsIdle}
use gosible.Modules.WaitFor.Ending.{IsClock, wait_for_state-Ends}

-- a clock that a sleep moves on by its time, and all else by a nanosecond
tick : Event → ℕ
tick (Event.slept (pos n)) = n
tick (Event.slept (negsuc n)) = 0
tick _ = 1

time : Trace → ℕ
unfolding tick
time [] = 0
time (e ∷ es) = tick e + time es

clock : Trace → ℤ
unfolding time
clock es = pos (time es)

refused : NetFault
refused = record { is_net = true; timed_out = false; cause = failure (codes "connection refused") }

-- a host whose ports are closed, and that has no files
abbrev closed_host : Surroundings
closed_host = record {
  clock = clock;
  stat_error = λ es path. some not_exist;
  content = λ es path. err not_exist;
  dial_error = λ es address d. some refused;
  deadline_error = λ es d. none;
  incoming = λ es. [];
  close_error = λ es. none;
  look_up_ip = λ es name. ok [];
  connections = λ es. ok [];
  compile = λ text. err (failure text);
}

abbrev web : WaitParams
web = record wait_defaults { port = 80; timeout = pos 3; delay = pos 1 }

clock-IsClock : IsClock clock
unfolding clock time
clock-IsClock = ((λ e es. omega arith), later)
  where
    later : (d : ℤ) (es : Trace) → clock es +ℤ d ≤ℤ clock (Event.slept d ∷ es)
    later (pos n) es = omega (arith, +ℤ_parts (clock es) (pos n))
    later (negsuc n) es = omega (arith, +ℤ_parts (clock es) (negsuc n))

run_wait_for-IsIdle_example : Ends IsIdle (run_wait_for closed_host 5 web [])
run_wait_for-IsIdle_example = run_wait_for-IsIdle closed_host 5 web

wait_for_state-Ends_example :
    Ends (λ es. pos 0 ≤ℤ clock es) (wait_for_state closed_host 4 web (pos 0) [])
unfolding clock time seconds ◌*ℤ◌
wait_for_state-Ends_example =
    wait_for_state-Ends closed_host clock-IsClock web (pos 0) 1000000000 3 [] (omega arith)
      (omega arith) (omega arith) (omega arith)

-- a host whose port is open
abbrev open_host : Surroundings
open_host = record closed_host { dial_error = λ es address d. none }

outcome_of : Option (Trace × Outcome Fault Found) → Option (Outcome Fault Found)
outcome_of none = none
outcome_of (some r) = some r.1

closed_port_times_out :
    outcome_of (handle_started_present_state closed_host 9 web (pos 0) [])
    ≡ some (err (failure (codes "timeout when waiting")))
unfolding handle_started_present_state clock outcome_of seconds
closed_port_times_out = refl

open_port_panics : outcome_of (handle_started_present_state open_host 9 web (pos 0) []) ≡ some panic
unfolding handle_started_present_state clock outcome_of seconds closed_with
open_port_panics = refl
