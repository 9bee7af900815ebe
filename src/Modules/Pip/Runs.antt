-- ===== src/Modules/Pip/Runs.antt =====
-- modules/pip: Run.
use gosible.Base.{
  Bool, true, false, not, ◌&&◌, ◌||◌, List, [], ◌∷◌, ◌++◌, map, if◌then◌else◌, is_empty, Outcome,
  ok, err, panic,
}
use gosible.Base.Int.{pos, eq_ℤ}
use gosible.GoText.{Str, codes, str_eq, contains}
use gosible.Values.{Value, list_to_items, Fields}
use gosible.Machine.{
  System, RunResult, Return, no_return, Fault, Command, Io, pure, crash, lift, attempt, ◌>>=◌, args,
  run_command, update_return, get_return, or_failed,
}
use gosible.Machine.Paths.{get_bin_path, exists, join_path}
use gosible.Modules.Service.{first_available, locale_preferences, available_locales}
use gosible.Modules.Pip.{
  PipParams, zero_params, state_words, validate_pip_params, get_extra_args, check_has_vcs,
  set_umask,
}
use gosible.Modules.Pip.Requirements.{RequirementData}
use gosible.Modules.Pip.Environment.{
  Requirement, PipTools, get_virtualenv, get_chdir, setup_virtualenv, get_pip, get_pip_requirements,
  validate_version_name_combo, convert_to_pip_requirements,
}

module _ (sys : System) (tools : PipTools) (p : PipParams) where
  abbrev pub pip_locale_from : Outcome Fault RunResult → Io Str
  unfolding available_locales first_available
  pip_locale_from (ok r) = pure (first_available (available_locales r) locale_preferences)
  pip_locale_from (err e) = crash
  pip_locale_from panic = crash

  abbrev pub pip_locale_at : Outcome Fault Str → Io Str
  unfolding pip_locale_from run_command
  pip_locale_at (ok path) =
      attempt (run_command sys (args (path ∷ codes "-a" ∷ []))) >>= pip_locale_from
  pip_locale_at (err e) = pure []
  pip_locale_at panic = crash

  abbrev pub pip_locale : Io Str
  unfolding get_bin_path pip_locale_at
  pip_locale = attempt (get_bin_path sys (codes "locale") [] true) >>= pip_locale_at

  abbrev pub in_locale : Str → List Str → Command
  in_locale loc argv = record (args argv) {
    environ = (codes "LANG", loc) ∷ (codes "LC_ALL", loc) ∷ (codes "LC_MESSAGES", loc) ∷ [];
    cwd = (get_chdir sys tools p);
  }

  -- a command, and what came of it
  abbrev pub Ran : Type 0
  Ran = List Str × Outcome Fault RunResult

  -- The words of pip are copied into a slice of length 0, so that they are missing here.
  abbrev pub list_words : List Str
  list_words = codes "list" ∷ codes "--format=freeze" ∷ []

  abbrev pub freeze_words : List Str
  freeze_words = codes "freeze" ∷ []

  abbrev pub after_list : Str → Outcome Fault RunResult → Io Ran
  unfolding run_command
  after_list loc (err e) = pure (list_words, err e)
  after_list loc panic = crash
  after_list loc (ok r) =
      if eq_ℤ r.rc (pos 0)
      then pure (list_words, ok r)
      else attempt (run_command sys (in_locale loc freeze_words)) >>= λ again.
          pure (freeze_words, again)

  unfoldable pub get_packages : Io Ran
  unfolding pip_locale after_list run_command
  get_packages =
      pip_locale >>= λ loc. attempt (run_command sys (in_locale loc list_words)) >>= after_list loc

  abbrev pub text_list : List Str → Value
  unfolding list_to_items
  text_list texts = Value.list (list_to_items (map Value.str texts))

  -- the module's method fail: a return value of its own
  abbrev pub pip_failure : List Str → Str → Str → Return
  pip_failure cmd out errors = record no_return {
    failed = true;
    stdout = out;
    stderr = errors;
    specific = Value.map (Fields.field (Value.str (codes "Cmd")) (text_list cmd) Fields.end);
  }

  -- what has been written so far, and whether the environment was made
  pub record Progress : Type 0 where
    pub made : Bool
    pub out : Str
    pub errors : Str

  abbrev pub nothing_made : Progress
  nothing_made = record { made = false; out = []; errors = [] }

  abbrev pub made_if : Bool → Io Progress
  unfolding setup_virtualenv
  made_if false = pure nothing_made
  made_if true = (setup_virtualenv sys tools p) >>= λ r.
      pure (record { made = true; out = r.stdout; errors = r.stderr })

  -- the environment is made where there is one already
  unfoldable pub make_environment : Io Progress
  unfolding made_if exists
  make_environment =
      if is_empty (get_virtualenv sys tools p)
      then pure nothing_made
      else exists sys (
          join_path sys (join_path sys (get_virtualenv sys tools p) (codes "bin"))
            (codes "activate"))
        >>= made_if

  -- an error of getPip is overwritten, and its result nil
  abbrev pub pip_or_nil : Outcome Fault (List Str) → Io (List Str)
  pip_or_nil (ok words) = pure words
  pip_or_nil (err e) = pure []
  pip_or_nil panic = crash

  abbrev pub versioned : Str → List RequirementData
  versioned name = record { name = name; version = p.version } ∷ []

  abbrev pub requirements_of : List Str → Io (List Requirement)
  unfolding get_pip_requirements validate_version_name_combo convert_to_pip_requirements
  requirements_of [] = pure []
  requirements_of (name ∷ names) = (get_pip_requirements sys tools p) >>= λ packages.
      lift (validate_version_name_combo sys tools p packages) >>= λ u.
      (convert_to_pip_requirements sys tools p) (versioned name)

  abbrev pub extra_words : Io (List Str)
  unfolding get_extra_args
  extra_words =
      if is_empty (get_extra_args p) then pure [] else lift (tools.shell_split (get_extra_args p))

  abbrev pub package_text : Requirement → Str
  package_text r = r.text

  unfoldable pub package_words : List Requirement → List Str
  package_words packages =
      if not (is_empty p.package_names)
      then map package_text packages
      else if not (is_empty p.requirements)
      then codes "-r" ∷ p.requirements ∷ []
      else []

  -- the return value, or how Run goes on with the list of packages
  abbrev pub with_packages : Progress → (Str → Io Return) → Ran → Io Return
  with_packages g k (cmd, ok r) = k r.stdout
  with_packages g k (cmd, err e) = pure (pip_failure cmd g.out g.errors)
  with_packages g k (cmd, panic) = crash

  abbrev pub freeze_before : Progress → (Str → Io Return) → Io Return
  unfolding get_packages check_has_vcs
  freeze_before g k =
      if not (is_empty p.requirements) || check_has_vcs p.package_names
      then get_packages >>= with_packages g k
      else k []

  -- pipCommandFailed
  unfoldable pub pip_command_failed : RunResult → Str → Bool
  unfolding contains str_eq
  pip_command_failed r before =
      not (eq_ℤ r.rc (pos 0))
      && not (eq_ℤ r.rc (pos 1) && str_eq p.state (codes "absent"))
      && not (contains before (codes "not installed") || contains r.stderr (codes "not installed"))

  abbrev pub pip_details : List Str → Value
  pip_details cmd = Value.map (
      Fields.field (Value.str (codes "Cmd")) (text_list cmd) (
        Fields.field (Value.str (codes "Name")) (text_list p.package_names) (
          Fields.field (Value.str (codes "Requirements")) (Value.str p.requirements) (
            Fields.field (Value.str (codes "Virtualenv")) (Value.str (get_virtualenv sys tools p))
              (Fields.field (Value.str (codes "Version")) (Value.str p.version) Fields.end)))))

  abbrev pub pip_report : List Str → Progress → Bool → Io Return
  unfolding update_return
  pip_report cmd g changed =
      update_return sys (record no_return {
        changed = changed;
        stdout = g.out;
        stderr = g.errors;
        specific = pip_details cmd;
      })
      >>= λ u. get_return

  -- The packages are the same as before where something is called changed.
  abbrev pub report_changes : List Str → Progress → RunResult → Str → Io Return
  unfolding pip_report get_packages contains str_eq
  report_changes cmd g r before =
      if g.made
      then pip_report cmd g true
      else if str_eq p.state (codes "absent")
      then pip_report cmd g (contains r.stdout (codes "Successfully uninstalled"))
      else get_packages >>= with_packages g (λ after. pip_report cmd g (str_eq after before))

  abbrev pub and_result : Progress → RunResult → Progress
  and_result g r = record g { out = g.out ++ r.stdout; errors = g.errors ++ r.stderr }

  -- The result of a command that fails to start is nil, and is read.
  abbrev pub after_command : List Str → Progress → Str → Outcome Fault RunResult → Io Return
  unfolding pip_command_failed report_changes
  after_command cmd g before (ok r) =
      if pip_command_failed r before
      then pure (pip_failure cmd (and_result g r).out (and_result g r).out)
      else report_changes cmd (and_result g r) r before
  after_command cmd g before (err e) = crash
  after_command cmd g before panic = crash

  abbrev pub pip_command : List Str → Command
  pip_command cmd = record (args cmd) {
    path_prefix =
        if is_empty (get_virtualenv sys tools p)
        then []
        else join_path sys (get_virtualenv sys tools p) (codes "bin");
    cwd = (get_chdir sys tools p);
  }

  abbrev pub run_words : Progress → List Str → Io Return
  unfolding freeze_before after_command run_command
  run_words g cmd =
      freeze_before g
        (λ before. attempt (run_command sys (pip_command cmd)) >>= after_command cmd g before)

  -- The words of pip are copied into a slice of length 0 here too.
  unfoldable pub run_pip_with : Io Return
  unfolding set_umask make_environment get_pip requirements_of extra_words package_words run_words
      state_words
  run_pip_with = lift (set_umask p) >>= λ u. make_environment >>= λ g.
      attempt (get_pip sys tools p) >>= pip_or_nil >>= λ pip.
      requirements_of p.package_names >>= λ packages. extra_words >>= λ extra.
      run_words g (state_words p.state ++ (extra ++ package_words packages))

module _ (sys : System) (tools : PipTools) where
  -- Run, for parameters that have been decoded
  unfoldable pub run_pip : PipParams → Io Return
  unfolding validate_pip_params run_pip_with or_failed
  run_pip given =
      or_failed (lift (validate_pip_params given) >>= λ u. run_pip_with sys tools zero_params)
