-- ===== src/Modules/WaitFor/Idle.antt =====
-- modules/waitFor/wait_for.go: what Run does with any parameters.
use gosible.Base.{
  ℕ, Bool, true, false, ◌&&◌, some, [], ◌∷◌, ◌≡◌, refl, Bool-cases, inl, inr, all_of, not, is_empty,
  ◌==◌, or_false, ok, err, String, arith,
}
use gosible.Base.Int.{ℤ}
use gosible.GoText.{codes, str_eq}
use gosible.Machine.{failure}
use gosible.Modules.WaitFor.{
  WaitParams, Event, Trace, Surroundings, validate_wait_params, wait_options, is_one_of, no_report,
}
use gosible.Modules.WaitFor.Waiting.{
  nothing_found, wait_for_state, wait_or_sleep, run_wait_for, prepare, wait_from, final_report,
  delayed,
}
use gosible.Modules.WaitFor.Keeping.{Keeps, Ends, then_wait-Ends, then_loop-Ends}

-- an event that asks nothing of files, ports and connections
abbrev pub is_idle : Event → Bool
is_idle Event.read_clock = true
is_idle (Event.slept d) = true
is_idle (Event.reported r) = true
is_idle _ = false

abbrev pub IsIdle : Trace → Type 0
IsIdle es = all_of is_idle es ≡ true

module _ (env : Surroundings) (n : ℕ) (p : WaitParams) where
  abbrev is_state : String → Bool
  is_state text = str_eq p.state (codes text)

  -- a state that is none of the five
  not_options :
      is_one_of wait_options p.state ≡ false
      → (is_state "absent" ≡ false)
        × (is_state "drained" ≡ false)
        × (is_state "present" ≡ false)
        × (is_state "started" ≡ false)
        × (is_state "stopped" ≡ false)
  unfolding is_one_of
  not_options h =
      let a = or_false (is_state "absent") _ h in
      let b = or_false (is_state "drained") _ a.1 in
      let c = or_false (is_state "present") _ b.1 in
      let d = or_false (is_state "started") _ c.1 in
      let e = or_false (is_state "stopped") _ d.1 in (a.0, b.0, c.0, d.0, e.0)

  wait_for_state_unknown :
      (start : ℤ) (es : Trace)
      → is_one_of wait_options p.state ≡ false
      → wait_for_state env n p start es ≡ some (es, ok nothing_found)
  unfolding wait_for_state is_one_of
  wait_for_state_unknown start es h =
      let (absent, drained, present, started, stopped) = not_options h in
      rw absent (rw stopped (rw started (rw present (rw drained refl))))

  wait_or_sleep-Ends :
      (start : ℤ) (es : Trace)
      → is_one_of wait_options p.state ≡ false
      → IsIdle es
      → Ends IsIdle (wait_or_sleep env n p start es)
  unfolding wait_or_sleep
  wait_or_sleep-Ends start es h i = elim (Bool-cases sleeps) [
    | inl e ↦ rw e i
    | inr e ↦ rw e (rw (wait_for_state_unknown start es h) i)
  ]
    where
      sleeps : Bool
      sleeps = p.port == 0 && is_empty p.path && not (is_state "drained")

  validate_wait_params_known :
      is_one_of wait_options p.state ≡ true
      → validate_wait_params p ≡ err (failure (codes "invalid option for state"))
  unfolding validate_wait_params
  validate_wait_params_known h = rw h refl

  delayed-Keeps : Keeps IsIdle (delayed env p)
  delayed-Keeps es i = ground arith

  prepare-Keeps : Keeps IsIdle (prepare env p)
  unfolding prepare
  prepare-Keeps es i = ground arith

  prepare_known :
      (es : Trace)
      → is_one_of wait_options p.state ≡ true
      → prepare env p es
        ≡ (Event.reported no_report ∷ es, err (failure (codes "invalid option for state")))
  unfolding prepare
  prepare_known es h = rw (validate_wait_params_known h) refl

  -- Whatever its parameters are, Run of wait_for ends, by any fuel, and asks nothing of files, ports,
  -- connections and names: it only sleeps, reads the clock and reports.
  pub run_wait_for-IsIdle : Ends IsIdle (run_wait_for env n p [])
  unfolding run_wait_for wait_from
  run_wait_for-IsIdle = elim (Bool-cases (is_one_of wait_options p.state)) [
    | inl h ↦ rw (prepare_known [] h) refl
    | inr h ↦
        then_loop-Ends IsIdle (wait_from env n p)
          (λ start es i.
            then_wait-Ends IsIdle (final_report env p start) (λ f es i. i)
              (wait_or_sleep env n p start es) (wait_or_sleep-Ends start es h i))
          (prepare env p []) (prepare-Keeps [] refl)
  ]
