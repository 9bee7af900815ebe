-- ===== src/Modules/Service/Linux/Enable.antt =====
-- modules/service/linux_service.go: the ways to enable and disable a service.
use gosible.Base.{
  Bool, true, false, not, ◌&&◌, ◌||◌, Option, none, some, List, [], ◌∷◌, ◌++◌, if◌then◌else◌, ◌==◌,
  is_empty, any_of, Outcome, ok, err, panic,
}
use gosible.Base.Int.{pos, eq_ℤ, lt_ℤ}
use gosible.GoText.{Str, codes, str_eq, contains, has_prefix, split, push_first}
use gosible.Machine.{System, RunResult, Fault, failure, stat, read_file, write_file, is_not_exist}
use gosible.Machine.Paths.{is_exec_node}
use gosible.Modules.Service.{
  ServiceParams, ServiceState, Act, ◌>>=◌, done, fails, panics, io, catch, get_state,
  set_changed_to, words, one_of, execute_command,
}
use gosible.Modules.Service.Regexps.{has_line, remove_lines, is_blank}
use gosible.Modules.Service.Linux.{has_suffix}
use gosible.Utilities.Version.{Loose, compare_loose}

-- what a method answers: the action that is left to do, and a result, if there is one
abbrev pub Method : Type 0
Method = Act (Str × Option RunResult)

abbrev pub settled : Method
settled = done ([], none)

abbrev pub action_text : Bool → Str
action_text enable = if enable then codes "enable" else codes "disable"

-- spaceRe.Split: the parts between runs of white space
unfoldable pub split_blanks : Bool → Str → List Str
split_blanks in_run [] = [] ∷ []
split_blanks in_run (c ∷ s) =
    let next = split_blanks true s in
    let rest = split_blanks false s in
    if is_blank c then if in_run then next else [] ∷ next else push_first c rest

-- strings.SplitN(line, "|", 2)[1]; out of range where there is no bar
abbrev after_bar : Str → Option Str
after_bar [] = none
after_bar (c ∷ s) = let rest = after_bar s in if c == b'|' then some s else rest

abbrev before_bar : Str → Str
before_bar [] = []
before_bar (c ∷ s) = let rest = before_bar s in if c == b'|' then [] else c ∷ rest

module _ (sys : System) (p : ServiceParams) where
  abbrev failed_with : RunResult → Fault
  failed_with r = failure (if is_empty r.stderr then r.stdout else r.stderr)

  abbrev is_zero_rc : RunResult → Bool
  is_zero_rc r = eq_ℤ r.rc (pos 0)

  -- the words of a stanza that keeps a service from starting
  abbrev manual_words : Loose → Str
  unfolding compare_loose
  manual_words v =
      if lt_ℤ (compare_loose v (pos 0 ∷ pos 6 ∷ pos 7 ∷ [])) (pos 0)
      then codes "start on manual"
      else codes "manual"

  -- the file that is to be written, if there is one to write
  unfoldable pub override_state : Str → Bool → Outcome Fault Str → Outcome Fault (Option Str)
  unfolding has_line remove_lines
  override_state manual enable (ok text) = ok (
      if enable && has_line true manual text
      then some (remove_lines 0 true manual text)
      else if not enable && not (has_line true manual text)
      then some (text ++ codes "\n" ++ manual ++ codes "\n")
      else none)
  override_state manual enable (err e) =
      if is_not_exist e then ok (if enable then none else some (manual ++ codes "\n")) else err e
  override_state manual enable panic = panic

  abbrev write_override : Option Str → Method
  unfolding write_file
  write_override none = set_changed_to false >>= λ _. settled
  write_override (some text) = set_changed_to true >>= λ _.
      catch (io (write_file sys (codes "/etc/init/" ++ (p.name ++ codes ".override")) text))
      >>= written
    where
      written : Outcome Fault Unit → Method
      written (ok _) = settled
      written (err e) = fails (failure (codes "could not modify override file"))
      written panic = panics

  abbrev lifted : Outcome Fault (Option Str) → Act (Option Str)
  lifted (ok o) = done o
  lifted (err e) = fails e
  lifted panic = panics

  unfoldable pub initctl_service_enable : Bool → Method
  unfolding manual_words override_state write_override read_file has_line
  initctl_service_enable enable = get_state >>= λ l.
      let manual = manual_words l.upstart_version in
      io (read_file sys (codes "/etc/init/" ++ (p.name ++ codes ".conf"))) >>= λ conf.
      if has_line true manual conf
      then fails (failure (codes "manual stanza not supported in a .conf file"))
      else set_changed_to false >>= λ _.
          catch (io (read_file sys (codes "/etc/init/" ++ (p.name ++ codes ".override"))))
          >>= λ old. lifted (override_state manual enable old) >>= write_override

  -- A name in the list of services counts as one that chkconfig does not know.
  unfoldable pub sysv_service_enable : Bool → Method
  unfolding execute_command contains
  sysv_service_enable enable = get_state >>= λ l.
      execute_command sys p (words (l.enable_cmd ∷ codes "--list" ∷ p.name ∷ [])) >>= λ first.
      (if contains first.stderr (codes "chkconfig --add " ++ p.name)
        then (execute_command sys p (words (l.enable_cmd ∷ codes "--add" ∷ p.name ∷ [])) >>= λ _.
            execute_command sys p (words (l.enable_cmd ∷ codes "--list" ∷ p.name ∷ [])))
        else done first)
      >>= λ r.
          if contains r.stdout p.name
          then fails (failure (codes "service does not support chkconfig"))
          else if contains r.stdout (codes "3:" ++ action_text enable)
              && contains r.stdout (codes "5:" ++ action_text enable)
          then (set_changed_to false >>= λ _. settled)
          else done (action_text enable, none)

  abbrev links : Str → Act (Option (List Str))
  links pattern = io λ w. (w, sys.glob w.host pattern)

  abbrev any_link {ℓ} : {A : Type ℓ} → Option A → Bool
  any_link none = false
  any_link (some a) = true

  abbrev bool_eq : Bool → Bool → Bool
  bool_eq true b = b
  bool_eq false b = not b

  abbrev checked_run : Str → Act Unit
  unfolding execute_command
  checked_run cmd =
      execute_command sys p cmd >>= λ r. if is_zero_rc r then done tt else fails (failed_with r)

  unfoldable pub update_rc_d_style_service_enable : Bool → Method
  unfolding checked_run
  update_rc_d_style_service_enable enable = get_state >>= λ l.
      links (codes "/etc/rc?.d/S??" ++ p.name) >>= λ slinks.
      if bool_eq enable (any_link slinks)
      then (set_changed_to false >>= λ _. settled)
      else set_changed_to true >>= λ _.
          (if enable
            then (links (codes "/etc/rc?.d/K??" ++ p.name) >>= λ klinks.
                if any_link klinks
                then done tt
                else checked_run (words (l.enable_cmd ∷ p.name ∷ codes "defaults" ∷ [])))
            else done tt)
          >>= λ _.
              checked_run (words (l.enable_cmd ∷ p.name ∷ action_text enable ∷ [])) >>= λ _. settled

  -- sysvIsEnabled: no link counts as enabled
  unfoldable pub sysv_is_enabled : Str → Act Bool
  sysv_is_enabled name =
      links (codes "/etc/rc?.d/S??" ++ name) >>= λ found. done (not (any_link found))

  -- syscall.Access(name, X_OK) on the name of the unit
  unfoldable pub sysv_exists : Str → Act Bool
  unfolding stat
  sysv_exists name = io (stat sys name) >>= λ n. done (is_exec_node n)

  unfoldable pub get_systemd_service_enabled : Act Bool
  unfolding execute_command sysv_exists sysv_is_enabled has_prefix
  get_systemd_service_enabled = get_state >>= λ l.
      execute_command sys p (words (l.enable_cmd ∷ codes "is-enabled" ∷ l.systemd_unit ∷ []))
      >>= λ r.
          if is_zero_rc r
          then done true
          else if has_prefix r.stdout (codes "disabled")
          then done false
          else sysv_exists l.systemd_unit >>= λ found.
              if found then sysv_is_enabled l.systemd_unit else done false

  unfoldable pub systemd_service_enable : Bool → Method
  unfolding get_systemd_service_enabled
  systemd_service_enable enable = get_systemd_service_enabled >>= λ enabled.
      if bool_eq enable enabled
      then (set_changed_to false >>= λ _. settled)
      else done (action_text enable, none)

  abbrev insserv_would : Bool → RunResult → Bool
  unfolding contains split
  insserv_would enable r =
      any_of
        (λ line.
          (enable && contains line (codes "enable service"))
          || (not enable && contains line (codes "remove service")))
        (split b'\n' r.stderr)

  unfoldable pub insserv_service_enable : Bool → Method
  unfolding execute_command insserv_would
  insserv_service_enable enable = get_state >>= λ l.
      execute_command sys p (
        words (
          l.enable_cmd
            ∷ codes "-n"
            ∷ (if enable then codes "-v" ∷ [] else codes "-r" ∷ codes "-v" ∷ [])
          ++ p.name ∷ []))
      >>= λ dry. set_changed_to (insserv_would enable dry) >>= λ _.
          if not (insserv_would enable dry)
          then settled
          else execute_command sys p
              (words (l.enable_cmd ∷ (if enable then [] else codes "-r" ∷ []) ++ p.name ∷ []))
            >>= λ r.
                if not (is_zero_rc r) || not (is_empty r.stderr)
                then fails (failure (codes "failed to change service"))
                else done ([], some r)

  abbrev rc_row : Bool → Str → Act Bool
  unfolding str_eq split_blanks one_of
  rc_row enable line = elim (after_bar line) as (λ _. Act Bool) [
    | none ↦ panics
    | some levels ↦
        if not (str_eq (before_bar line) p.name)
        then done false
        else ((if bool_eq enable (one_of (split_blanks false levels) p.runlevel)
              then set_changed_to false
              else done tt)
            >>= λ _. done true)
  ]

  -- Whether a row has the service; the rows after it are not read.
  unfoldable pub rc_rows : Bool → List Str → Act Bool
  unfolding rc_row
  rc_rows enable [] = done false
  rc_rows enable (line ∷ lines) =
      rc_row enable line >>= λ found. if found then done true else rc_rows enable lines

  unfoldable pub open_rc_service_enable : Bool → Method
  unfolding execute_command rc_rows split
  open_rc_service_enable enable = get_state >>= λ l.
      execute_command sys p (words (l.enable_cmd ∷ codes "show" ∷ [])) >>= λ r.
      rc_rows enable (split b'\n' r.stdout) >>= λ found.
      (if not found && enable then set_changed_to false else done tt) >>= λ _. get_state >>= λ l.
      if l.changed then settled else done (if enable then codes "add" else codes "delete", none)

  -- the method by the suffix of the command
  unfoldable pub method_for : Str → Bool → Method
  unfolding has_suffix initctl_service_enable sysv_service_enable systemd_service_enable
      open_rc_service_enable update_rc_d_style_service_enable insserv_service_enable
  method_for cmd enable =
      if has_suffix cmd (codes "initctl")
      then initctl_service_enable enable
      else if has_suffix cmd (codes "chkconfig")
      then sysv_service_enable enable
      else if has_suffix cmd (codes "systemctl")
      then systemd_service_enable enable
      else if has_suffix cmd (codes "rc-update")
      then open_rc_service_enable enable
      else if has_suffix cmd (codes "update-rc.d")
      then update_rc_d_style_service_enable enable
      else if has_suffix cmd (codes "insserv")
      then insserv_service_enable enable
      else settled

  abbrev enable_words : ServiceState → Str → List Str
  unfolding has_suffix
  enable_words l action =
      if has_suffix l.enable_cmd (codes "rc-update")
      then l.enable_cmd ∷ action ∷ p.name ∷ p.runlevel ∷ []
      else if has_suffix l.enable_cmd (codes "systemctl")
      then l.enable_cmd ∷ action ∷ l.systemd_unit ∷ []
      else l.enable_cmd ∷ p.name ∷ action ∷ []

  abbrev take_action : Str × Option RunResult → Act (Option RunResult)
  unfolding execute_command enable_words
  take_action ([], r) = done r
  take_action (c ∷ action, r) = set_changed_to true >>= λ _. get_state >>= λ l.
      execute_command sys p (words (enable_words l (c ∷ action))) >>= λ r.
      if is_zero_rc r then done (some r) else fails (failed_with r)

  unfoldable pub service_enable : Bool → Act (Option RunResult)
  unfolding method_for take_action
  service_enable enable = get_state >>= λ l.
      if is_empty l.enable_cmd
      then fails (failure (codes "cannot detect command to enable service"))
      else set_changed_to true >>= λ _. method_for l.enable_cmd enable >>= take_action
