-- ===== src/Modules/WaitFor/Ending.antt =====
-- modules/waitFor/wait_for.go: how many turns the loops take, by the clock.
use gosible.Base.{
  ℕ, zero, suc, Bool, ◌++◌, true, false, Option, none, some, List, [], ◌∷◌, ◌≡◌, Bool-cases, inl,
  inr, Outcome, ok, err, panic, ◌*◌, arith,
}
use gosible.Base.Int.{ℤ, pos, ◌≤ℤ◌, ◌+ℤ◌, lt_ℤ, +ℤ_parts}
use gosible.GoText.{Str, str_eq, codes}
use gosible.Machine.{Fault}
use gosible.Modules.WaitFor.{
  WaitParams, Event, Trace, Surroundings, Wait, ◌>>=◌, give, Regexp, TcpConnectionInfo,
  convert_host_to_ip, get_exclude_ips, new_tcp_connection_info, get_active_connections_count,
  NetFault, with_excluded, connection_info, is_one_of,
}
use gosible.Modules.WaitFor.Waiting.{
  Looping, wait_until, turn, seconds, check_absent, check_present, check_drained, wait_for_state,
  handle_absent_stopped_state, handle_started_present_state, handle_drained_state, Found,
  after_absent, after_present, after_drained, path_exists, search_file, absent_path, absent_port,
  stopped, address, check_present_path, closed_with, on_connection, check_present_port, exists_of,
  report_elapsed, present_loop, drained_loop, search_regexp, no_groups, nothing_found,
}
use gosible.Modules.WaitFor.Keeping.{
  Keeps, Ends, continue_wait-Keeps, then_wait-Ends, then_loop-Ends,
}

-- The clock never goes back, and a sleep takes at least its time.
abbrev pub IsClock : (Trace → ℤ) → Type 0
IsClock clock =
    ((e : Event) (es : Trace) → clock es ≤ℤ clock (e ∷ es))
    × ((d : ℤ) (es : Trace) → clock es +ℤ d ≤ℤ clock (Event.slept d ∷ es))

le_trans : (a b c : ℤ) → a ≤ℤ b → b ≤ℤ c → a ≤ℤ c
le_trans a b c = ground arith

add_le : (a b d : ℤ) → a ≤ℤ b → a +ℤ d ≤ℤ b +ℤ d
add_le a b d h = omega (arith, +ℤ_parts a d, +ℤ_parts b d)

le_add : (b c d : ℤ) (step : ℕ) → pos step ≤ℤ d → b ≤ℤ c → b ≤ℤ c +ℤ d
le_add b c d step long h = omega (arith, +ℤ_parts c d)

later :
    (c end d : ℤ) (step n : ℕ)
    → pos step ≤ℤ d
    → end ≤ℤ c +ℤ pos (suc n * step)
    → end ≤ℤ c +ℤ d +ℤ pos (n * step)
later c end d step n long h =
    omega (arith, +ℤ_parts c (pos (suc n * step)), +ℤ_parts c d, +ℤ_parts (c +ℤ d) (pos (n * step)))

over_time : (c t end : ℤ) (step : ℕ) → end ≤ℤ c +ℤ pos (0 * step) → c ≤ℤ t → lt_ℤ t end ≡ false
over_time c t end step h s = ground (arith, +ℤ_parts c (pos (0 * step)))

module _ (env : Surroundings) (k : IsClock env.clock) where
  abbrev Since : ℤ → Trace → Type 0
  Since c es = c ≤ℤ env.clock es

  abbrev Advances : {A : Type 0} → Wait A → Type 0
  Advances m = (c : ℤ) → Keeps (Since c) m

  every : (c : ℤ) (e : Event) (es : Trace) → Since c es → Since c (e ∷ es)
  every c e es h = le_trans c (env.clock es) (env.clock (e ∷ es)) h (k.0 e es)

  module _ {A : Type 0} (end d b : ℤ) (step : ℕ) (long : pos step ≤ℤ d)
      (body : Wait (Option A)) where
    turn-Ends :
        (rest : Looping (Option A)) (c : ℤ)
        → ((es : Trace) → Since (c +ℤ d) es → Ends (Since b) (rest es))
        → (r : Trace × Outcome Fault (Option A)) → b ≤ℤ c
        → Since c r.0
        → Ends (Since b) (turn env rest d r)
    turn-Ends rest c more (es, ok none) l h = more (Event.slept d ∷ es) (
        le_trans (c +ℤ d) (env.clock es +ℤ d) (env.clock (Event.slept d ∷ es))
          (add_le c (env.clock es) d h) (k.1 d es))
    turn-Ends rest c more (es, ok (some a)) l h = le_trans b c (env.clock es) l h
    turn-Ends rest c more (es, err e) l h = le_trans b c (env.clock es) l h
    turn-Ends rest c more (es, panic) l h = le_trans b c (env.clock es) l h

    stop : (c : ℤ) (es : Trace) → b ≤ℤ c → Since c es → Since b (Event.read_clock ∷ es)
    stop c es l s = every b Event.read_clock es (le_trans b c (env.clock es) l s)

    wait_until-Ends :
        Advances body
        → (n : ℕ) (c : ℤ) (es : Trace) → end ≤ℤ c +ℤ pos (n * step)
        → b ≤ℤ c
        → Since c es
        → Ends (Since b) (wait_until env (suc n) end d body es)
    unfolding wait_until
    wait_until-Ends a zero c es h l s = rw over (stop c es l s)
      where
        over : lt_ℤ (env.clock es) end ≡ false
        over = over_time c (env.clock es) end step h s
    wait_until-Ends a (suc n) c es h l s = elim (Bool-cases (lt_ℤ (env.clock es) end)) [
      | inr e ↦ rw e (stop c es l s)
      | inl e ↦ rw e (
          turn-Ends (wait_until env (suc n) end d body) c
            (λ es t.
              wait_until-Ends a n (c +ℤ d) es (later c end d step n long h)
                (le_add b c d step long l) t)
            (body (Event.read_clock ∷ es)) l
            (a c (Event.read_clock ∷ es) (every c Event.read_clock es s)))
    ]

  check_drained-Advances :
      (p : WaitParams) (t : TcpConnectionInfo) → Advances (check_drained env p t)
  unfolding check_drained get_active_connections_count
  check_drained-Advances p t c es h = ground (arith, every c Event.listed es h)

  absent_path-Advances : (p : WaitParams) → Advances (absent_path env p)
  unfolding absent_path path_exists
  absent_path-Advances p c es h = ground (arith, every c (Event.looked_at p.path) es h)

  stopped-Advances : (e : Option NetFault) → Advances (stopped env e)
  stopped-Advances none c es h = every c Event.closed es h
  stopped-Advances (some e) c es h = h

  absent_port-Advances : (p : WaitParams) → Advances (absent_port env p)
  unfolding absent_port
  absent_port-Advances p c es h =
      let e = Event.dialled (address env p) (seconds p.connect_timeout) in
      stopped-Advances (env.dial_error es (address env p) (seconds p.connect_timeout)) c (e ∷ es)
        (every c e es h)

  check_absent-Advances : (p : WaitParams) → Advances (check_absent env p)
  unfolding check_absent
  check_absent-Advances p c es h =
      ground (arith, absent_path-Advances p c es h, absent_port-Advances p c es h)

  search_file-Advances :
      (path : Str) (re : Option Regexp) (there : Bool) → Advances (search_file env path re there)
  search_file-Advances path re false c es h = h
  search_file-Advances path none true c es h = h
  search_file-Advances path (some re) true c es h =
      ground (arith, every c (Event.read_content path) es h)

  check_present_path-Advances :
      (p : WaitParams) (re : Option Regexp) → Advances (check_present_path env p re)
  unfolding check_present_path path_exists
  check_present_path-Advances p re c es h =
      continue_wait-Keeps (Since c) (search_file env p.path re)
        (λ b. search_file-Advances p.path re b c)
        (Event.looked_at p.path ∷ es, exists_of env (env.stat_error es p.path))
        (every c (Event.looked_at p.path) es h)

  closed_with-Advances : (r : Outcome Fault (Option Found)) → Advances (closed_with env r)
  unfolding closed_with
  closed_with-Advances r c es h = every c Event.closed es h

  on_connection-Advances :
      (end : ℤ) (re : Option Regexp) (e : Option NetFault) → Advances (on_connection env end re e)
  on_connection-Advances end re (some e) c es h = h
  on_connection-Advances end (some re) none c es h = closed_with-Advances _ c es h
  on_connection-Advances end none none c es h =
      let set = every c (Event.deadline_set end) es h in
      let got = every c Event.received (Event.deadline_set end ∷ es) set in
      ground (
        arith,
        set,
        closed_with-Advances panic c (Event.received ∷ Event.deadline_set end ∷ es) got,
      )

  check_present_port-Advances :
      (p : WaitParams) (end : ℤ) (re : Option Regexp) → Advances (check_present_port env p end re)
  unfolding check_present_port
  check_present_port-Advances p end re c es h =
      on_connection-Advances end re _ c _
        (every c (Event.dialled _ _) _ (every c Event.read_clock es h))

  check_present-Advances :
      (p : WaitParams) (end : ℤ) (re : Option Regexp) → Advances (check_present env p end re)
  unfolding check_present
  check_present-Advances p end re c es h =
      ground (
        arith,
        check_present_path-Advances p re c es h,
        check_present_port-Advances p end re c es h,
      )

  report_elapsed-Advances : (start : ℤ) → Advances (report_elapsed env start)
  unfolding report_elapsed
  report_elapsed-Advances start c es h =
      every c _ (Event.read_clock ∷ es) (every c Event.read_clock es h)

  reports : (start c : ℤ) (es : Trace) → Since c es → Since c (report_elapsed env start es).0
  reports start c es h = report_elapsed-Advances start c es h

  convert_host_to_ip-Advances : (name : Str) → Advances (convert_host_to_ip env name)
  unfolding convert_host_to_ip
  convert_host_to_ip-Advances name c es h = ground (arith, every c (Event.looked_up name) es h)

  get_exclude_ips-Advances : (names : List Str) → Advances (get_exclude_ips env names)
  unfolding get_exclude_ips
  get_exclude_ips-Advances [] c es h = h
  get_exclude_ips-Advances (name ∷ names) c es h =
      continue_wait-Keeps (Since c)
        (λ ips. get_exclude_ips env names >>= λ rest. give (ok (ips ++ rest)))
        (λ ips es h.
          continue_wait-Keeps (Since c) (λ rest. give (ok (ips ++ rest))) (λ rest es h. h)
            (get_exclude_ips env names es) (get_exclude_ips-Advances names c es h))
        (convert_host_to_ip env name es) (convert_host_to_ip-Advances name c es h)

  new_tcp_connection_info-Advances : (p : WaitParams) → Advances (new_tcp_connection_info env p)
  unfolding new_tcp_connection_info
  new_tcp_connection_info-Advances p c es h =
      continue_wait-Keeps (Since c) (with_excluded env p)
        (λ own es h.
          continue_wait-Keeps (Since c) (λ excluded. give (ok (connection_info env own excluded)))
            (λ excluded es h. h) (get_exclude_ips env p.exclude_hosts es)
            (get_exclude_ips-Advances p.exclude_hosts c es h))
        (convert_host_to_ip env p.host es) (convert_host_to_ip-Advances p.host c es h)

  module _ (p : WaitParams) (start : ℤ) (step n : ℕ)
      (most : seconds p.timeout ≤ℤ pos (n * step)) where
    end_of_wait : ℤ
    end_of_wait = start +ℤ seconds p.timeout

    fits : end_of_wait ≤ℤ start +ℤ pos (n * step)
    unfolding end_of_wait
    fits = omega (arith, +ℤ_parts start (seconds p.timeout), +ℤ_parts start (pos (n * step)))

    loop-Ends :
        {A : Type 0} (d : ℤ) (body : Wait (Option A)) (es : Trace)
        → pos step ≤ℤ d
        → Advances body
        → Since start es
        → Ends (Since start) (wait_until env (suc n) end_of_wait d body es)
    loop-Ends d body es long a s =
        wait_until-Ends end_of_wait d start step long body a n start es fits (omega arith) s

    absent-Ends :
        (es : Trace)
        → pos step ≤ℤ seconds p.sleep
        → Since start es
        → Ends (Since start) (handle_absent_stopped_state env (suc n) p start es)
    unfolding handle_absent_stopped_state end_of_wait
    absent-Ends es long s =
        then_wait-Ends (Since start) (after_absent env p start) after
          (wait_until env (suc n) end_of_wait (seconds p.sleep) (check_absent env p) es)
          (loop-Ends (seconds p.sleep) (check_absent env p) es long (check_absent-Advances p) s)
      where
        after : (o : Option Unit) → Keeps (Since start) (after_absent env p start o)
        after (some u) es h = h
        after none es h = ground (arith, report_elapsed-Advances start start es h)

    present-Ends :
        (es : Trace)
        → pos step ≤ℤ seconds p.sleep
        → Since start es
        → Ends (Since start) (handle_started_present_state env (suc n) p start es)
    unfolding handle_started_present_state present_loop end_of_wait
    present-Ends es long s =
        then_loop-Ends (Since start) (present_loop env (suc n) p start)
          (λ re es s.
            then_wait-Ends (Since start) (after_present env p start) after
              (wait_until env (suc n) end_of_wait (seconds p.sleep)
                (check_present env p end_of_wait re) es)
              (loop-Ends (seconds p.sleep) (check_present env p end_of_wait re) es long
                (check_present-Advances p end_of_wait re) s))
          (es, search_regexp env p) s
      where
        after : (o : Option Found) → Keeps (Since start) (after_present env p start o)
        after (some f) es h = h
        after none es h = ground (arith, report_elapsed-Advances start start es h)

    drained-Ends :
        (es : Trace)
        → pos step ≤ℤ seconds p.delay
        → Since start es
        → Ends (Since start) (handle_drained_state env (suc n) p start es)
    unfolding handle_drained_state drained_loop end_of_wait
    drained-Ends es long s =
        then_loop-Ends (Since start) (drained_loop env (suc n) p start)
          (λ t es s.
            then_wait-Ends (Since start) (after_drained env p start) after
              (wait_until env (suc n) end_of_wait (seconds p.delay) (check_drained env p t) es)
              (loop-Ends (seconds p.delay) (check_drained env p t) es long
                (check_drained-Advances p t) s))
          (new_tcp_connection_info env p es) (new_tcp_connection_info-Advances p start es s)
      where
        after : (o : Option Unit) → Keeps (Since start) (after_drained env p start o)
        after (some u) es h = h
        after none es h = ground (arith, report_elapsed-Advances start start es h)

  -- By a clock that never goes back and that a sleep moves by at least its time, each state's wait of
  -- wait_for ends within one turn more than the number of steps that the timeout holds, where a step
  -- is no longer than sleep and delay; the clock then shows no less than the start.
  pub wait_for_state-Ends :
      (p : WaitParams) (start : ℤ) (step n : ℕ) (es : Trace)
      → seconds p.timeout ≤ℤ pos (n * step)
      → pos step ≤ℤ seconds p.sleep
      → pos step ≤ℤ seconds p.delay
      → start ≤ℤ env.clock es
      → Ends (Since start) (wait_for_state env (suc n) p start es)
  unfolding wait_for_state
  wait_for_state-Ends p start step n es most sleeps delays s = elim (Bool-cases absent) [
    | inl e ↦ rw e (no_groups-Ends _ (absent-Ends p start step n most es sleeps s))
    | inr e ↦ rw e (elim (Bool-cases started) [
      | inl e ↦ rw e (present-Ends p start step n most es sleeps s)
      | inr e ↦ rw e (elim (Bool-cases (str_eq p.state (codes "drained"))) [
        | inl e ↦ rw e (no_groups-Ends _ (drained-Ends p start step n most es delays s))
        | inr e ↦ rw e s
      ])
    ])
  ]
    where
      absent : Bool
      absent = is_one_of (codes "absent" ∷ codes "stopped" ∷ []) p.state

      started : Bool
      started = is_one_of (codes "started" ∷ codes "present" ∷ []) p.state

      no_groups-Ends :
          (o : Option (Trace × Outcome Fault Unit))
          → Ends (Since start) o
          → Ends (Since start) (no_groups env o)
      no_groups-Ends o h =
          then_wait-Ends (Since start) (λ u. give (ok nothing_found)) (λ u es h. h) o h
