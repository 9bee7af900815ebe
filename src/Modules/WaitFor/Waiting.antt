-- ===== src/Modules/WaitFor/Waiting.antt =====
-- modules/waitFor/wait_for.go: the three loops that wait, and Run. A loop runs on fuel, one unit for
-- each turn, and without fuel there is no result; Ending says which fuel is enough.
use gosible.Base.{
  ℕ, zero, suc, Bool, true, false, not, ◌&&◌, ◌||◌, Option, none, some, List, [], ◌∷◌, ◌+◌, ◌/◌,
  ◌++◌, if◌then◌else◌, is_empty, ◌==◌, Outcome, ok, err, panic,
}
use gosible.Base.Int.{ℤ, pos, negsuc, ◌+ℤ◌, ◌-ℤ◌, ◌*ℤ◌, lt_ℤ, eq_ℤ}
use gosible.GoText.{Str, codes, str_eq}
use gosible.GoText.Numbers.{wrap64}
use gosible.Dict.{Dict, insert}
use gosible.Machine.{Fault, not_exist, failure, is_not_exist}
use gosible.Modules.WaitFor.{
  WaitParams, no_report, Regexp, NetFault, Event, Trace, Surroundings, Wait, ◌>>=◌, continue_wait,
  perform, give, send_report, pause, is_one_of, validate_wait_params, TcpConnectionInfo,
  new_tcp_connection_info, get_active_connections_count,
}

abbrev pub second : ℤ
second = pos 1000000000

-- `time.Duration(n) * time.Second`, in an int64
unfoldable pub seconds : ℤ → ℤ
unfolding ◌*ℤ◌
seconds n = wrap64 (n *ℤ second)

-- `int(d.Seconds())` and `math.Ceil(d.Seconds())`, without the rounding of a float64
abbrev pub whole_seconds : ℤ → ℤ
whole_seconds (pos n) = pos (n / 1000000000)
whole_seconds (negsuc n) = pos 0 -ℤ pos (suc n / 1000000000)

abbrev pub ceil_seconds : ℤ → ℤ
ceil_seconds (pos n) = pos ((n + 999999999) / 1000000000)
ceil_seconds (negsuc n) = pos 0 -ℤ pos (suc n / 1000000000)

abbrev pub min_ℤ : ℤ → ℤ → ℤ
min_ℤ a b = if lt_ℤ a b then a else b

-- the groups that a search has found
pub record Found : Type 0 where
  pub groups : List Str
  pub group_dict : Dict Str

abbrev pub nothing_found : Found
nothing_found = record { groups = []; group_dict = [] }

-- groupDict[name] = groups[i]: the last group of a name stays
unfoldable named_groups_onto : Dict Str → List Str → List Str → Dict Str
unfolding insert
named_groups_onto dict (n ∷ ns) (g ∷ gs) = named_groups_onto (insert n g dict) ns gs
named_groups_onto dict _ _ = dict

unfoldable pub named_groups : List Str → List Str → Dict Str
unfolding named_groups_onto
named_groups names groups = named_groups_onto [] names groups

abbrev pub Looping : Type 0 → Type 0
Looping A = Trace → Option (Trace × Outcome Fault A)

module _ {A B : Type 0} where
  abbrev pub then_wait :
      Option (Trace × Outcome Fault A) → (A → Wait B) → Option (Trace × Outcome Fault B)
  then_wait none f = none
  then_wait (some r) f = some (continue_wait r f)

  abbrev pub then_loop :
      Trace × Outcome Fault A → (A → Looping B) → Option (Trace × Outcome Fault B)
  then_loop (es, ok a) f = f a es
  then_loop (es, err e) f = some (es, err e)
  then_loop (es, panic) f = some (es, panic)

module _ (env : Surroundings) where
  abbrev pub now : Wait ℤ
  now = perform Event.read_clock (λ es. ok (env.clock es))

  module _ {A : Type 0} where
    -- how a turn goes on: `some` is a return from the loop, `none` another turn
    abbrev pub turn :
        Looping (Option A)
        → ℤ
        → Trace × Outcome Fault (Option A)
        → Option (Trace × Outcome Fault (Option A))
    turn rest d (es, ok none) = rest (Event.slept d ∷ es)
    turn rest d (es, ok (some a)) = some (es, ok (some a))
    turn rest d (es, err e) = some (es, err e)
    turn rest d (es, panic) = some (es, panic)

    -- `for time.Now().Before(end) { …; time.Sleep(d) }`; `none` is the end of the time
    unfoldable pub wait_until : ℕ → ℤ → ℤ → Wait (Option A) → Looping (Option A)
    wait_until zero end d body es = none
    wait_until (suc n) end d body es =
        let rest = wait_until n end d body in
        if lt_ℤ (env.clock es) end
        then turn rest d (body (Event.read_clock ∷ es))
        else some (Event.read_clock ∷ es, ok none)

  -- what stands at the end of each of the three: the time that has gone by is reported
  unfoldable pub report_elapsed : ℤ → Wait Unit
  unfolding ◌-ℤ◌
  report_elapsed start =
      now >>= λ t. send_report (record no_report { elapsed = whole_seconds (t -ℤ start) })

  -- utils/path: Exists
  abbrev pub exists_of : Option Fault → Outcome Fault Bool
  exists_of none = ok true
  exists_of (some e) = if is_not_exist e then ok false else err e

  unfoldable pub path_exists : Str → Wait Bool
  path_exists path = perform (Event.looked_at path) (λ es. exists_of (env.stat_error es path))

  -- The address is made of the host twice.
  abbrev pub address : WaitParams → Str
  address p = p.host ++ codes ":" ++ p.host

  abbrev pub dial : WaitParams → ℤ → Wait (Option NetFault)
  dial p d = perform (Event.dialled (address p) d) (λ es. ok (env.dial_error es (address p) d))

  abbrev pub close_connection : Wait (Option NetFault)
  close_connection = perform Event.closed (λ es. ok (env.close_error es))

  unfoldable pub is_not_conn : Option NetFault → Bool
  is_not_conn none = false
  is_not_conn (some e) = e.is_net && not e.timed_out

  -- the errors of an absent port
  abbrev pub stopped : Option NetFault → Wait (Option Unit)
  stopped none = close_connection >>= λ e. give (ok none)
  stopped (some e) = give (if e.is_net && e.timed_out then ok (some tt) else err e.cause)

  unfoldable pub absent_path : WaitParams → Wait (Option Unit)
  unfolding path_exists
  absent_path p = path_exists p.path >>= λ there. give (ok (if there then none else some tt))

  unfoldable pub absent_port : WaitParams → Wait (Option Unit)
  absent_port p = dial p (seconds p.connect_timeout) >>= stopped

  -- the body of the loop in handleAbsentStoppedState
  unfoldable pub check_absent : WaitParams → Wait (Option Unit)
  unfolding absent_path absent_port
  check_absent p =
      if not (is_empty p.path)
      then absent_path p
      else if not (p.port == 0)
      then absent_port p
      else give (ok none)

  abbrev pub timeout_fault : WaitParams → Str → Outcome Fault Unit
  timeout_fault p text =
      if not (p.port == 0) || not (is_empty p.path) then err (failure text) else ok tt

  abbrev pub after_absent : WaitParams → ℤ → Option {0} Unit → Wait Unit
  unfolding report_elapsed
  after_absent p start (some u) = give (ok tt)
  after_absent p start none = report_elapsed start >>= λ u.
      give (timeout_fault p (codes "timeout when waiting for the stop"))

  unfoldable pub handle_absent_stopped_state : ℕ → WaitParams → ℤ → Looping Unit
  unfolding wait_until check_absent after_absent ◌+ℤ◌
  handle_absent_stopped_state n p start es =
      then_wait (wait_until n (start +ℤ seconds p.timeout) (seconds p.sleep) (check_absent p) es)
        (after_absent p start)

  abbrev pub searched : Regexp → Str → Option Found
  unfolding named_groups
  searched re text =
      if re.matches text
      then some (record {
        groups = re.submatches text;
        group_dict = named_groups re.names (re.submatches text);
      })
      else none

  abbrev pub search_file : Str → Option Regexp → Bool → Wait (Option Found)
  search_file path re false = give (ok none)
  search_file path none true = give (ok (some nothing_found))
  search_file path (some re) true =
      perform (Event.read_content path) (λ es. env.content es path) >>= λ text.
      give (ok (searched re text))

  -- handleStartedPresentStatePath
  unfoldable pub check_present_path : WaitParams → Option Regexp → Wait (Option Found)
  unfolding path_exists
  check_present_path p re = path_exists p.path >>= search_file p.path re

  abbrev pub fault_of : Option NetFault → Fault
  fault_of none = not_exist
  fault_of (some e) = e.cause

  -- the error of Close is returned, unless it is a timeout or none
  unfoldable pub closed_with : Outcome Fault (Option Found) → Wait (Option Found)
  unfolding is_not_conn
  closed_with r = close_connection >>= λ e. give (if is_not_conn e then err (fault_of e) else r)

  abbrev pub set_read_deadline : ℤ → Wait Unit
  set_read_deadline end =
      perform (Event.deadline_set end)
        (λ es. elim (env.deadline_error es end) [ none ↦ ok tt | some e ↦ err e ])

  -- Match of a nil *Regexp, after what has been received
  abbrev pub on_connection : ℤ → Option Regexp → Option NetFault → Wait (Option Found)
  on_connection end re (some e) = give (ok none)
  on_connection end none none = set_read_deadline end >>= λ u.
      perform Event.received (λ es. ok (env.incoming es)) >>= λ text. closed_with panic
  on_connection end (some re) none = closed_with (ok (some nothing_found))

  -- handleStartedPresentStatePort
  unfoldable pub check_present_port : WaitParams → ℤ → Option Regexp → Wait (Option Found)
  unfolding ◌-ℤ◌
  check_present_port p end re = now >>= λ t.
      dial p (seconds (min_ℤ (ceil_seconds (end -ℤ t)) p.connect_timeout)) >>= on_connection end re

  -- the body of the loop in handleStartedPresentState
  unfoldable pub check_present : WaitParams → ℤ → Option Regexp → Wait (Option Found)
  unfolding check_present_path check_present_port
  check_present p end re =
      if not (is_empty p.path)
      then check_present_path p re
      else if not (p.port == 0)
      then check_present_port p end re
      else give (ok none)

  abbrev pub compiled : Outcome Fault Regexp → Outcome Fault (Option Regexp)
  compiled (ok re) = ok (some re)
  compiled (err e) = err e
  compiled panic = panic

  abbrev pub search_regexp : WaitParams → Outcome Fault (Option Regexp)
  search_regexp p =
      if is_empty p.search_regex then ok none else compiled (env.compile p.search_regex)

  abbrev pub found_or_not : Outcome Fault Unit → Outcome Fault Found
  found_or_not (ok u) = ok nothing_found
  found_or_not (err e) = err e
  found_or_not panic = panic

  abbrev pub after_present : WaitParams → ℤ → Option Found → Wait Found
  unfolding report_elapsed
  after_present p start (some f) = give (ok f)
  after_present p start none = report_elapsed start >>= λ u.
      give (found_or_not (timeout_fault p (codes "timeout when waiting")))

  unfoldable pub present_loop : ℕ → WaitParams → ℤ → Option Regexp → Looping Found
  unfolding wait_until check_present after_present ◌+ℤ◌
  present_loop n p start re es =
      then_wait
        (wait_until n (start +ℤ seconds p.timeout) (seconds p.sleep)
          (check_present p (start +ℤ seconds p.timeout) re) es)
        (after_present p start)

  unfoldable pub handle_started_present_state : ℕ → WaitParams → ℤ → Looping Found
  unfolding present_loop
  handle_started_present_state n p start es =
      then_loop (es, search_regexp p) (present_loop n p start)

  -- the body of the loop in handleDrainedState
  unfoldable pub check_drained : WaitParams → TcpConnectionInfo → Wait (Option Unit)
  unfolding get_active_connections_count
  check_drained p t =
      get_active_connections_count env p t >>= λ n. give (ok (if n == 0 then some tt else none))

  -- a message is taken as it is, where the code takes it as a format
  abbrev pub drain_message : WaitParams → Str
  drain_message p = if is_empty p.msg then codes "Timeout when waiting to drain" else p.msg

  abbrev pub after_drained : WaitParams → ℤ → Option {0} Unit → Wait Unit
  unfolding report_elapsed
  after_drained p start (some u) = give (ok tt)
  after_drained p start none = report_elapsed start >>= λ u. give (err (failure (drain_message p)))

  unfoldable pub drained_loop : ℕ → WaitParams → ℤ → TcpConnectionInfo → Looping Unit
  unfolding wait_until check_drained after_drained ◌+ℤ◌
  drained_loop n p start t es =
      then_wait (wait_until n (start +ℤ seconds p.timeout) (seconds p.delay) (check_drained p t) es)
        (after_drained p start)

  unfoldable pub handle_drained_state : ℕ → WaitParams → ℤ → Looping Unit
  unfolding new_tcp_connection_info drained_loop
  handle_drained_state n p start es =
      then_loop (new_tcp_connection_info env p es) (drained_loop n p start)

  -- the keys of connectionStateId
  abbrev pub known_states : List Str
  known_states =
      codes "ESTABLISHED"
      ∷ codes "SYN_SENT"
      ∷ codes "SYN_RECV"
      ∷ codes "FIN_WAIT1"
      ∷ codes "FIN_WAIT2"
      ∷ codes "TIME_WAIT"
      ∷ []

  unfoldable pub check_states : List Str → Outcome Fault Unit
  check_states [] = ok tt
  check_states (s ∷ ss) =
      if is_one_of known_states s
      then check_states ss
      else err (failure (codes "unknown active_connection_state defined"))

  abbrev pub no_groups : Option (Trace × Outcome Fault Unit) → Option (Trace × Outcome Fault Found)
  no_groups r = then_wait r (λ u. give (ok nothing_found))

  -- the switch of Run; another state waits for nothing
  unfoldable pub wait_for_state : ℕ → WaitParams → ℤ → Looping Found
  unfolding handle_absent_stopped_state handle_started_present_state handle_drained_state str_eq
  wait_for_state n p start es =
      if is_one_of (codes "absent" ∷ codes "stopped" ∷ []) p.state
      then no_groups (handle_absent_stopped_state n p start es)
      else if is_one_of (codes "started" ∷ codes "present" ∷ []) p.state
      then handle_started_present_state n p start es
      else if str_eq p.state (codes "drained")
      then no_groups (handle_drained_state n p start es)
      else some (es, ok nothing_found)

  unfoldable pub wait_or_sleep : ℕ → WaitParams → ℤ → Looping Found
  unfolding wait_for_state str_eq
  wait_or_sleep n p start es =
      if p.port == 0 && is_empty p.path && not (str_eq p.state (codes "drained"))
      then some (Event.slept (seconds p.timeout) ∷ es, ok nothing_found)
      else wait_for_state n p start es

  abbrev pub final_report : WaitParams → ℤ → Found → Wait Unit
  unfolding ◌-ℤ◌
  final_report p start f = now >>= λ t. send_report (record {
    elapsed = whole_seconds (t -ℤ start);
    match_group_dict = f.group_dict;
    match_groups = f.groups;
    wait_state = p.state;
    wait_port = p.port;
    wait_regex = p.search_regex;
    wait_path = p.path;
  })

  abbrev pub delayed : WaitParams → Wait Unit
  delayed p = if eq_ℤ p.delay (pos 0) then give (ok tt) else pause (seconds p.delay)

  unfoldable pub prepare : WaitParams → Wait ℤ
  unfolding validate_wait_params check_states
  prepare p = send_report no_report >>= λ u. give (validate_wait_params p) >>= λ u. now >>= λ start.
      delayed p >>= λ u. give (check_states p.active_connection_states) >>= λ u. give (ok start)

  unfoldable pub wait_from : ℕ → WaitParams → ℤ → Looping Unit
  unfolding wait_or_sleep final_report
  wait_from n p start es = then_wait (wait_or_sleep n p start es) (final_report p start)

  -- Run, for parameters that have been decoded; an error marks the return value as failed
  unfoldable pub run_wait_for : ℕ → WaitParams → Looping Unit
  unfolding prepare wait_from
  run_wait_for n p es = then_loop (prepare p es) (wait_from n p)
