-- ===== src/Modules/Service/Linux.antt =====
-- modules/service/linux_service.go: how the tools for a service are found, and how it is asked for
-- its status and told to start and stop.
pub mod Enable
pub mod Runs
pub mod Failing
use gosible.Base.{
  ℕ, suc, Bool, true, false, not, ◌&&◌, ◌||◌, Option, none, some, List, [], ◌∷◌, ◌++◌, ◌==◌, leb,
  if◌then◌else◌, is_empty, any_of, map, Outcome, ok, err, panic,
}
use gosible.Base.Int.{ℤ, pos, eq_ℤ, ◌+ℤ◌}
use gosible.GoText.{Str, codes, str_eq, contains, has_prefix, count, replace_all}
use gosible.GoText.Numbers.{lower}
use gosible.Dict.{Dict, lookup}
use gosible.Machine.{
  System, Machine, HostState, RunResult, Fault, not_exist, failure, Io, pure, fail, stat, read_file,
  is_not_exist, run_command,
}
use gosible.Machine.Paths.{get_bin_path, is_regular, exists, is_exec_node}
use gosible.Machine.SystemInfo.{canaries, any_exists}
use gosible.Modules.Service.{
  ServiceParams, ServiceState, Act, ◌>>=◌, done, fails, panics, io, catch, get_state, modify_state,
  set_running, is_true, words, execute_command,
}
use gosible.Modules.Service.Regexps.{find_upstart}
use gosible.Utilities.Version.{Loose, new_loose, VersionError}

-- strings.HasSuffix(s, p)
unfoldable pub has_suffix : Str → Str → Bool
unfolding str_eq
has_suffix [] p = str_eq [] p
has_suffix (c ∷ s) p = str_eq (c ∷ s) p || has_suffix s p

abbrev pub text_at : Str → Dict Str → Str
unfolding lookup
text_at key d = elim (lookup key d) [ none ↦ [] | some v ↦ v ]

abbrev pub first_text : Str → Str → Str
first_text [] b = b
first_text (c ∷ a) b = c ∷ a

abbrev pub tool_paths : List Str
tool_paths = codes "/sbin" ∷ codes "/usr/sbin" ∷ codes "/bin" ∷ codes "/usr/bin" ∷ []

abbrev pub binaries : List Str
binaries =
    codes "service"
    ∷ codes "chkconfig"
    ∷ codes "update-rc.d"
    ∷ codes "rc-service"
    ∷ codes "rc-update"
    ∷ codes "systemctl"
    ∷ codes "initctl"
    ∷ codes "start"
    ∷ codes "stop"
    ∷ codes "restart"
    ∷ codes "insserv"
    ∷ []

module _ (sys : System) (p : ServiceParams) where
  unfoldable pub locate : List Str → Act (Dict Str)
  unfolding get_bin_path
  locate [] = done []
  locate (b ∷ bs) = io (get_bin_path sys b tool_paths false) >>= λ path.
      locate bs >>= λ rest. done ((b, path) ∷ rest)

  abbrev comm_has_systemd : Outcome Fault Str → Act Bool
  unfolding contains
  comm_has_systemd (ok text) = done (contains text (codes "systemd"))
  comm_has_systemd (err e) = if is_not_exist e then done false else fails e
  comm_has_systemd panic = panics

  unfoldable pub check_systemd : Dict Str → Act Bool
  unfolding any_exists read_file text_at comm_has_systemd
  check_systemd location =
      if is_empty (text_at (codes "systemctl") location)
      then done false
      else io (any_exists sys canaries) >>= λ found.
          if found
          then done true
          else catch (io (read_file sys (codes "/proc/1/comm"))) >>= comm_has_systemd

  abbrev version_from : Outcome VersionError Loose → Act Unit
  version_from (ok v) = modify_state λ l. record l { upstart_version = v }
  version_from (err e) = done tt
  version_from panic = panics

  abbrev found_version : Option Str → Act Unit
  unfolding new_loose
  found_version none = done tt
  found_version (some t) = version_from (new_loose t)

  abbrev upstart_from : Outcome Fault RunResult → Act Unit
  unfolding find_upstart found_version
  upstart_from (ok r) = if eq_ℤ r.rc (pos 0) then found_version (find_upstart r.stdout) else done tt
  upstart_from (err e) = done tt
  upstart_from panic = panics

  abbrev use_upstart : Dict Str → Act Unit
  unfolding upstart_from run_command text_at
  use_upstart location =
      modify_state (λ l. record l {
        enable_cmd = text_at (codes "initctl") location;
        upstart_version = pos 0 ∷ pos 0 ∷ pos 0 ∷ [];
      })
      >>= λ _.
          catch (
            io (
              run_command sys (record {
                argv = words (text_at (codes "initctl") location ∷ codes "version" ∷ []) ∷ [];
                unsafe_shell = false;
                environ = [];
                path_prefix = [];
                cwd = [];
                stdin = [];
              })))
          >>= upstart_from

  -- the tool for a service with an init script
  abbrev script_tool : Dict Str → Str
  unfolding text_at
  script_tool location =
      first_text (text_at (codes "update-rc.d") location)
        (first_text (text_at (codes "insserv") location) (text_at (codes "chkconfig") location))

  unfoldable pub get_enable_and_svc_cmd : Dict Str → Act Unit
  unfolding check_systemd exists use_upstart script_tool text_at
  get_enable_and_svc_cmd location = check_systemd location >>= λ is_systemd.
      if is_systemd
      then modify_state (λ l. record l {
        systemd_unit = p.name;
        svc_cmd = text_at (codes "systemctl") location;
        enable_cmd = text_at (codes "systemctl") location;
      })
      else io (exists sys (codes "/etc/init/" ++ (p.name ++ codes ".conf"))) >>= λ found.
          if not (is_empty (text_at (codes "initctl") location)) && found
          then use_upstart location
          else if not (is_empty (text_at (codes "rc-service") location))
          then modify_state (λ l. record l {
            svc_cmd = text_at (codes "rc-service") location;
            enable_cmd = text_at (codes "rc-service") location;
          })
          else get_state >>= λ l.
              if not (is_empty l.svc_init_script)
              then modify_state (λ l. record l { enable_cmd = script_tool location })
              else done tt

  -- What follows where there is a command to enable services; where there is none, the call of
  -- ErrorIfMissing with `true` is no error.
  abbrev finish_tools : Dict Str → Act Unit
  unfolding text_at
  finish_tools location = get_state >>= λ l.
      if is_empty l.enable_cmd
      then done tt
      else modify_state
          (λ l. record l { svc_cmd = first_text l.svc_cmd (text_at (codes "service") location) })
        >>= λ _. get_state >>= λ l.
            if is_empty l.svc_cmd && is_empty l.svc_init_script
            then fails (failure (codes "cannot find 'service' binary or init script for service"))
            else modify_state λ l. record l { svc_init_ctl = text_at (codes "initctl") location }

  unfoldable pub get_service_tools : Act Unit
  unfolding locate is_regular get_enable_and_svc_cmd finish_tools
  get_service_tools = locate binaries >>= λ location.
      io (is_regular sys (codes "/etc/init.d/" ++ p.name)) >>= λ regular.
      (if regular
        then modify_state (λ l. record l { svc_init_script = codes "/etc/init.d/" ++ p.name })
        else done tt)
      >>= λ _. get_enable_and_svc_cmd location >>= λ _. finish_tools location

  -- getSystemdStatusDict returns a nil map where the command runs, since the test for its error is
  -- the wrong way round, and else reads the result, which is nil. The code after that is not reached.
  unfoldable pub get_systemd_status_dict : Act (Dict Str)
  unfolding execute_command
  get_systemd_status_dict = get_state >>= λ l.
      catch (execute_command sys p (words (l.enable_cmd ∷ codes "show" ∷ l.systemd_unit ∷ [])))
      >>= status_of
    where
      status_of : Outcome Fault RunResult → Act (Dict Str)
      status_of (ok r) = done []
      status_of (err e) = panics
      status_of panic = panics

  unfoldable pub get_systemd_service_status : Act (Option Bool)
  unfolding get_systemd_status_dict text_at str_eq
  get_systemd_service_status = get_systemd_status_dict >>= λ d.
      let active = text_at (codes "ActiveState") d in
      (if str_eq active (codes "active")
        then modify_state (λ l. record l { running = some true; crashed = false })
        else if str_eq active (codes "failed")
        then modify_state (λ l. record l { running = some false; crashed = true })
        else if is_empty active
        then fails (failure (codes "no ActiveState value in systemctl show output"))
        else modify_state (λ l. record l { running = some false; crashed = false }))
      >>= λ _. get_state >>= λ l. done l.running

  abbrev merged : RunResult → RunResult → RunResult
  unfolding ◌+ℤ◌
  merged stop start =
      if not (eq_ℤ stop.rc (pos 0)) && eq_ℤ start.rc (pos 0) then start else record {
        rc = start.rc +ℤ stop.rc;
        stdout = stop.stdout ++ start.stdout;
        stderr = stop.stderr ++ start.stderr;
      }

  abbrev command_or : Str → Str → Str → Str
  command_or [] action args = words (action ∷ p.name ∷ args ∷ [])
  command_or (c ∷ svc_cmd) action args = words ((c ∷ svc_cmd) ∷ action ∷ args ∷ [])

  -- The result is nil, with no error, where the start fails after a stop that ran.
  abbrev started_after : RunResult → Outcome Fault RunResult → Act (Option RunResult)
  unfolding merged
  started_after stop (ok start) = done (some (merged stop start))
  started_after stop (err e) = done none
  started_after stop panic = panics

  unfoldable pub handle_restart : Str → Str → Act (Option RunResult)
  unfolding execute_command has_suffix started_after
  handle_restart svc_cmd args = get_state >>= λ l.
      if has_suffix l.svc_cmd (codes "rc-service")
      then (execute_command sys p (words (svc_cmd ∷ codes "restart" ∷ args ∷ [])) >>= λ r.
          done (some r))
      else execute_command sys p (command_or svc_cmd (codes "stop") args) >>= λ stop.
          catch (execute_command sys p (command_or svc_cmd (codes "start") args))
          >>= started_after stop

  unfoldable pub handle_non_restart : Str → Str → Str → Act (Option RunResult)
  unfolding execute_command
  handle_non_restart action svc_cmd args =
      execute_command sys p (command_or svc_cmd action args) >>= λ r. done (some r)

  -- the command and the arguments of serviceControl
  unfoldable pub control_command : ServiceState → Str × Str
  unfolding has_suffix
  control_command l =
      if is_empty l.svc_cmd
      then (l.svc_init_script, p.arguments)
      else if has_suffix l.svc_cmd (codes "systemctl")
      then (l.svc_cmd, words (l.systemd_unit ∷ p.arguments ∷ []))
      else if has_suffix l.svc_cmd (codes "initctl")
      then (l.svc_cmd, words (p.name ∷ p.arguments ∷ []))
      else (words (l.svc_cmd ∷ p.name ∷ []), p.arguments)

  unfoldable pub service_control : Str → Act (Option RunResult)
  unfolding control_command has_suffix execute_command handle_restart handle_non_restart str_eq
  service_control action = get_state >>= λ l.
      (if has_suffix l.svc_cmd (codes "rc-service") && (str_eq action (codes "start") && l.crashed)
        then (execute_command sys p (words (l.svc_cmd ∷ codes "zap" ∷ [])) >>= λ _. done tt)
        else done tt)
      >>= λ _.
          (if str_eq action (codes "restart")
            then handle_restart (control_command l).0 (control_command l).1
            else handle_non_restart action (control_command l).0 (control_command l).1)

  abbrev if_unknown : Act Unit → Act Unit
  if_unknown act = get_state >>= λ l. go l.running
    where
      go : Option Bool → Act Unit
      go none = act
      go (some b) = done tt

  abbrev ask_upstart : Act Unit
  unfolding execute_command contains
  ask_upstart = get_state >>= λ l.
      if is_empty l.svc_init_ctl
      then done tt
      else if_unknown (
          execute_command sys p
            (words (l.svc_init_ctl ∷ codes "status" ∷ p.name ∷ p.arguments ∷ []))
          >>= λ r.
              if contains r.stdout (codes "stop/waiting")
              then set_running false
              else if contains r.stdout (codes "stop/running")
              then set_running true
              else done tt)

  abbrev ask_open_rc : Act Unit
  unfolding execute_command contains has_suffix
  ask_open_rc = get_state >>= λ l.
      if not (has_suffix l.svc_cmd (codes "rc-service"))
      then done tt
      else if_unknown (
          execute_command sys p (words (l.svc_cmd ∷ p.name ∷ codes "status" ∷ [])) >>= λ r.
          modify_state λ l. record l {
            running = some (contains r.stdout (codes "started"));
            crashed = contains r.stdout (codes "crashed");
          })

  abbrev is_down_rc : ℤ → Bool
  is_down_rc rc = any_of (λ n. eq_ℤ rc (pos n)) (1 ∷ 2 ∷ 3 ∷ 4 ∷ 69 ∷ [])

  -- what the keywords of one line of output say
  unfoldable pub keyword_status : Str → Option Bool
  unfolding contains
  keyword_status out =
      if contains out (codes "stop")
      then some false
      else if contains out (codes "run")
      then some (not (contains out (codes "not ")))
      else if contains out (codes "start") && not (contains out (codes "not "))
      then some true
      else if contains out (codes "could not access pid file")
      then some false
      else if contains out (codes "is dead and pid file exists")
      then some false
      else if contains out (codes "dead but subsys locked")
      then some false
      else if contains out (codes "dead but pid file exists")
      then some false
      else none

  abbrev set_if_some : Option Bool → Act Unit
  set_if_some none = done tt
  set_if_some (some b) = set_running b

  -- An empty name replaces nothing here; Go's ReplaceAll then adds nothing as well.
  abbrev clean_output : Str → Str
  unfolding replace_all
  clean_output out = if is_empty p.name then out else replace_all out (map lower p.name) []

  -- what getServiceStatus does with the result of the status command
  unfoldable pub interpret_status : RunResult → Act (Option Bool)
  unfolding ask_upstart ask_open_rc keyword_status clean_output count contains str_eq
  interpret_status r = ask_upstart >>= λ _. ask_open_rc >>= λ _.
      if_unknown (if is_down_rc r.rc then set_running false else done tt) >>= λ _.
      if_unknown (
        if leb (count r.stdout (codes "\n")) 1
        then set_if_some (keyword_status (clean_output r.stdout))
        else done tt)
      >>= λ _. if_unknown (if eq_ℤ r.rc (pos 0) then set_running true else done tt) >>= λ _.
          if_unknown (
            if str_eq p.name (codes "iptables") && contains r.stdout (codes "ACCEPT")
            then set_running true
            else done tt)
          >>= λ _. get_state >>= λ l. done l.running

  abbrev read_result : Option RunResult → Act (Option Bool)
  unfolding interpret_status
  read_result none = panics
  read_result (some r) = interpret_status r

  unfoldable pub get_service_status : Act (Option Bool)
  unfolding get_systemd_service_status service_control read_result has_suffix
  get_service_status = get_state >>= λ l.
      if has_suffix l.svc_cmd (codes "systemctl")
      then get_systemd_service_status
      else service_control (codes "status") >>= read_result
