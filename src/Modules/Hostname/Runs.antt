-- ===== src/Modules/Hostname/Runs.antt =====
-- modules/hostname/hostname.go: which strategy is taken, and Run.
use gosible.Base.{
  Bool, true, false, not, ◌&&◌, Option, none, some, List, [], ◌∷◌, if◌then◌else◌, is_empty, Outcome,
  ok, err, panic, drop,
}
use gosible.GoText.{Str, codes, str_eq, split, join}
use gosible.Dict.{Dict, lookup, has, insert}
use gosible.Values.{Vars, str, map, field, Fields}
use gosible.Machine.{
  System, Return, no_return, Fault, failure, Io, pure, fail, crash, lift, attempt, ◌>>=◌, or_failed,
  update_return, get_return,
}
use gosible.Machine.Paths.{get_bin_path}
use gosible.Machine.SystemInfo.{is_systemd_managed, platform_value}
use gosible.Modules.Hostname.{
  Strategy, file_strategy, red_hat_strategy, open_rc_strategy, alpine_strategy, free_bsd_strategy,
  solaris_strategy, systemd_strategy, base_deriver_strategy, get_current_hostname,
  get_permanent_hostname, set_current_hostname, set_permanent_hostname,
}

pub record HostnameParams : Type 0 where
  pub name : Str
  pub use_strategy : Str

-- What New makes has no GosibleModule in it, and so no parameters to write to.
pub record HostnameModule : Type 0 where
  pub params : Option HostnameParams

abbrev pub new_hostname : HostnameModule
new_hostname = record { params = none }

module _ (sys : System) where
  -- `err != b.setCurrentHostname(…)` with `err` nil: an error of the call is lost, and the name
  -- then does not count as changed.
  abbrev set_changed : Bool → Outcome Fault Unit → Io Bool
  set_changed changed (ok _) = pure true
  set_changed changed (err e) = pure changed
  set_changed changed panic = crash

  abbrev update_if : Io Str → (Str → Io Unit) → Str → Bool → Io Bool
  unfolding str_eq
  update_if get set name changed = get >>= λ current.
      if str_eq current name then pure changed else attempt (set name) >>= set_changed changed

  unfoldable pub update_current_hostname : Strategy → Str → Bool → Io Bool
  unfolding update_if get_current_hostname set_current_hostname
  update_current_hostname strat name changed =
      update_if (get_current_hostname sys strat) (set_current_hostname sys strat) name changed

  unfoldable pub update_permanent_hostname : Strategy → Str → Bool → Io Bool
  unfolding update_if get_permanent_hostname set_permanent_hostname
  update_permanent_hostname strat name changed =
      update_if (get_permanent_hostname sys strat) (set_permanent_hostname sys strat) name changed

  -- `return false, nil` on an error
  abbrev false_on_error : Outcome Fault Bool → (Bool → Io Bool) → Io Bool
  false_on_error (ok changed) f = f changed
  false_on_error (err e) f = pure false
  false_on_error panic f = crash

  unfoldable pub update_current_and_permanent_hostname : Strategy → Str → Io Bool
  unfolding update_current_hostname update_permanent_hostname
  update_current_and_permanent_hostname strat name =
      attempt (update_current_hostname strat name false) >>= λ r. false_on_error r λ changed.
        attempt (update_permanent_hostname strat name changed) >>= λ r. false_on_error r pure

  abbrev pub Maker : Type 0
  Maker = Io Strategy

  abbrev new_red_hat_strategy : Maker
  new_red_hat_strategy = pure (red_hat_strategy (codes "/etc/sysconfig/network"))

  abbrev new_alpine_strategy : Maker
  new_alpine_strategy = pure (alpine_strategy (codes "/etc/hostname") (codes "hostname"))

  abbrev new_open_bsd_strategy : Maker
  new_open_bsd_strategy = pure (file_strategy (codes "/etc/myname"))

  abbrev new_free_bsd_strategy : Maker
  unfolding get_bin_path
  new_free_bsd_strategy = get_bin_path sys (codes "hostname") [] true >>= λ path.
      pure (free_bsd_strategy (codes "/etc/rc.conf.d/hostname") path)

  abbrev new_darwin_strategy : Maker
  new_darwin_strategy = fail (failure (codes "darwin strategy is not implemented"))

  abbrev new_open_rc_strategy : Maker
  new_open_rc_strategy = pure (open_rc_strategy (codes "/etc/conf.d/hostname"))

  abbrev new_solaris_strategy : Maker
  unfolding get_bin_path
  new_solaris_strategy =
      get_bin_path sys (codes "hostname") [] true >>= λ path. pure (solaris_strategy path)

  abbrev new_file_strategy : Maker
  new_file_strategy = pure (file_strategy (codes "/etc/hostname"))

  abbrev new_systemd_strategy : Maker
  unfolding get_bin_path
  new_systemd_strategy =
      get_bin_path sys (codes "hostnamectl") [] true >>= λ path. pure (systemd_strategy path)

  abbrev unimplemented : Fault
  unimplemented = failure (codes "hostname module cannot be used on platform")

  module _ (sles_version : Outcome Fault Bool) (fqdn : Outcome Fault Str) where
    -- `sles_version` says whether the version, as a float, is from 10 to 12.
    abbrev new_sles_strategy : Maker
    new_sles_strategy = lift sles_version >>= λ old.
        if old then pure (file_strategy (codes "/etc/HOSTNAME")) else fail unimplemented

    unfoldable pub strats : Dict Maker
    unfolding new_free_bsd_strategy new_solaris_strategy new_systemd_strategy
    strats =
        (codes "alpine", new_alpine_strategy)
        ∷ (codes "debian", new_systemd_strategy)
        ∷ (codes "freebsd", new_free_bsd_strategy)
        ∷ (codes "generic", pure base_deriver_strategy)
        ∷ (codes "macos", new_darwin_strategy)
        ∷ (codes "macosx", new_darwin_strategy)
        ∷ (codes "darwin", new_darwin_strategy)
        ∷ (codes "openbsd", new_open_bsd_strategy)
        ∷ (codes "openrc", new_open_rc_strategy)
        ∷ (codes "redhat", new_red_hat_strategy)
        ∷ (codes "sles", new_sles_strategy)
        ∷ (codes "solaris", new_solaris_strategy)
        ∷ (codes "systemd", new_systemd_strategy)
        ∷ []

    abbrev linux_strategies : Dict Maker
    linux_strategies =
        (codes "Sles", new_sles_strategy)
        ∷ (codes "Redhat", new_red_hat_strategy)
        ∷ (codes "Anolis", new_red_hat_strategy)
        ∷ (codes "Cloudlinuxserver", new_red_hat_strategy)
        ∷ (codes "Cloudlinux", new_red_hat_strategy)
        ∷ (codes "Alinux", new_red_hat_strategy)
        ∷ (codes "Scientific", new_red_hat_strategy)
        ∷ (codes "Oracle", new_red_hat_strategy)
        ∷ (codes "Virtuozzo", new_red_hat_strategy)
        ∷ (codes "Amazon", new_red_hat_strategy)
        ∷ (codes "Altlinux", new_red_hat_strategy)
        ∷ (codes "Eurolinux", new_red_hat_strategy)
        ∷ (codes "Debian", new_file_strategy)
        ∷ (codes "Kylin", new_file_strategy)
        ∷ (codes "Cumulus-linux", new_file_strategy)
        ∷ (codes "Kali", new_file_strategy)
        ∷ (codes "Parrot", new_file_strategy)
        ∷ (codes "Ubuntu", new_file_strategy)
        ∷ (codes "Linuxmint", new_file_strategy)
        ∷ (codes "Linaro", new_file_strategy)
        ∷ (codes "Devuan", new_file_strategy)
        ∷ (codes "Raspbian", new_file_strategy)
        ∷ (codes "Neon", new_file_strategy)
        ∷ (codes "Void", new_file_strategy)
        ∷ (codes "Pop", new_file_strategy)
        ∷ (codes "Gentoo", new_open_rc_strategy)
        ∷ (codes "Alpine", new_alpine_strategy)
        ∷ []

    unfoldable pub platform_to_strategy : Dict (Dict Maker)
    unfolding new_free_bsd_strategy new_solaris_strategy
    platform_to_strategy =
        (codes "Linux", linux_strategies)
        ∷ (codes "OpenBSD", ([], new_open_bsd_strategy) ∷ [])
        ∷ (codes "SunOS", ([], new_solaris_strategy) ∷ [])
        ∷ (codes "FreeBSD", ([], new_free_bsd_strategy) ∷ [])
        ∷ (codes "NetBSD", ([], new_free_bsd_strategy) ∷ [])
        ∷ (codes "Darwin", ([], new_darwin_strategy) ∷ [])
        ∷ []

    abbrev maker_or : Io Strategy → Option Maker → Maker
    maker_or other none = other
    maker_or other (some make) = make

    -- A name that the table does not have is a call of a nil function.
    unfoldable pub get_strategy : HostnameParams → Io Strategy
    unfolding strats platform_to_strategy is_systemd_managed platform_value str_eq lookup
    get_strategy p =
        if not (is_empty p.use_strategy)
        then maker_or crash (lookup p.use_strategy strats)
        else is_systemd_managed sys >>= λ managed.
            if str_eq sys.platform (codes "Linux") && managed
            then new_systemd_strategy
            else maker_or (fail unimplemented) (platform_value sys platform_to_strategy)

    unfoldable pub validate_hostname_params : HostnameParams → Outcome Fault Unit
    unfolding strats has
    validate_hostname_params p =
        if is_empty p.name
        then err (failure (codes "parameter `name` for module hostname must be provided"))
        else if not (is_empty p.use_strategy) && not (has p.use_strategy strats)
        then err (failure (codes "unknown stategy for module hostname"))
        else ok tt

    abbrev first_part : List Str → Str
    first_part [] = []
    first_part (p ∷ ps) = p

    abbrev name_facts : Str → Vars
    unfolding split
    name_facts name =
        (codes "ansible_hostname", str (first_part (split b'.' name)))
        ∷ (codes "ansible_nodename", str name)
        ∷ []

    abbrev domain_facts : Outcome Fault Str → Vars → Vars
    unfolding split join insert
    domain_facts (ok host) facts =
        insert (codes "ansible_domain") (str (join (codes ".") (drop 1 (split b'.' host))))
          (insert (codes "ansible_fqdn") (str host) facts)
    domain_facts _ facts = facts

    abbrev exception_of : Outcome Fault Str → Option Fault
    exception_of (err e) = some e
    exception_of _ = none

    abbrev hostname_return : Str → Bool → Return
    unfolding domain_facts name_facts
    hostname_return name changed = record no_return {
      changed = changed;
      specific = map (field (str (codes "Name")) (str name) Fields.end);
      facts = domain_facts fqdn (name_facts name);
      exception = exception_of fqdn;
    }

    unfoldable pub run_with_params : HostnameParams → Io Return
    unfolding validate_hostname_params get_strategy get_current_hostname get_permanent_hostname
        update_current_and_permanent_hostname hostname_return update_return
    run_with_params p = lift (validate_hostname_params p) >>= λ _. get_strategy p >>= λ strat.
        get_current_hostname sys strat >>= λ _. get_permanent_hostname sys strat >>= λ _.
        update_current_and_permanent_hostname strat p.name >>= λ changed.
        update_return sys (hostname_return p.name changed) >>= λ _. get_return

    abbrev run_module_of : Option HostnameParams → Io Return
    unfolding run_with_params or_failed
    run_module_of none = crash
    run_module_of (some p) = or_failed (run_with_params p)

    -- Run, with the parameters decoded into those that the module has
    unfoldable pub run_hostname : HostnameModule → Io Return
    unfolding run_module_of
    run_hostname m = run_module_of m.params
