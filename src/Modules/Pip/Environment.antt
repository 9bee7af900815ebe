-- ===== src/Modules/Pip/Environment.antt =====
-- modules/pip: how pip, its environment and its requirements are found.
use gosible.Base.{
  Bool, true, false, not, ◌&&◌, ◌||◌, Option, none, some, List, [], ◌∷◌, ◌++◌, map, if◌then◌else◌,
  is_empty, any_of, Outcome, ok, err, panic,
}
use gosible.Base.Int.{pos, eq_ℤ}
use gosible.GoText.{
  Str, codes, str_eq, has_prefix, contains, contains_byte, split, trim_space, is_space,
}
use gosible.Machine.{
  System, RunResult, Fault, failure, Io, pure, fail, crash, lift, attempt, ◌>>=◌, args, run_command,
}
use gosible.Machine.Paths.{get_bin_path, exists, is_executable, join_path}
use gosible.Modules.Pip.{PipParams, recover_package_name}
use gosible.Modules.Pip.Requirements.{RequirementData, get_python_code}

-- requirement
pub record Requirement : Type 0 where
  pub has_version_specifier : Bool
  pub text : Str

-- package shlex, json.Unmarshal into requirements, os.TempDir, and MetaArgs.PythonInterpreter
pub record PipTools : Type 0 where
  pub shell_split : Str → Outcome Fault (List Str)
  pub decode : Str → Outcome Fault (List Requirement)
  pub temp_dir : Str
  pub python : Str

-- strings.Fields
unfoldable pub text_fields : Str → List Str
text_fields s = words_of [] s
  where
    words_of : Str → Str → List Str
    words_of word [] = if is_empty word then [] else word ∷ []
    words_of word (c ∷ s) =
        let ended = words_of [] s in
        let going = words_of (word ++ c ∷ []) s in
        if is_space c then (if is_empty word then ended else word ∷ ended) else going

-- `filepath.Base(s) == s`
abbrev pub is_base : Str → Bool
unfolding contains_byte str_eq
is_base s = not (is_empty s) && (not (contains_byte b'/' s) || str_eq s (codes "/"))

module _ (sys : System) (tools : PipTools) (p : PipParams) where
  abbrev pub get_virtualenv : Str
  get_virtualenv =
      if not (is_empty p.virtualenv) && not (is_empty p.chdir)
      then join_path sys p.chdir p.virtualenv
      else p.virtualenv

  abbrev pub get_chdir : Str
  get_chdir = if is_empty p.chdir then tools.temp_dir else p.chdir

  abbrev pub has_second : List Str → Option Str
  has_second (a ∷ b ∷ []) = some b
  has_second _ = none

  abbrev pub major_is_3 : List Str → Bool
  unfolding str_eq
  major_is_3 [] = false
  major_is_3 (v ∷ vs) = str_eq v (codes "3")

  abbrev pub py3_from : Option Str → Io Bool
  unfolding split
  py3_from none = fail (failure (codes "unexpected python version output"))
  py3_from (some version) = pure (major_is_3 (split b'.' version))

  unfoldable pub is_py3 : Str → Io Bool
  unfolding run_command split
  is_py3 path = run_command sys (args (path ∷ codes "--version" ∷ [])) >>= λ r.
      py3_from (has_second (split b' ' r.stdout))

  unfoldable pub has_pip_module : Str → Io Bool
  unfolding run_command
  has_pip_module path = run_command sys (args (path ∷ codes "-m" ∷ codes "pip" ∷ [])) >>= λ r.
      pure (eq_ℤ r.rc (pos 0))

  abbrev pub only_options : List Str → List Str
  unfolding has_prefix
  only_options [] = []
  only_options (w ∷ ws) = if has_prefix w (codes "--") then w ∷ only_options ws else only_options ws

  unfoldable pub get_cmd_opts : Str → Io (List Str)
  unfolding run_command only_options text_fields trim_space
  get_cmd_opts cmd = run_command sys (args ((cmd ++ codes " --help") ∷ [])) >>= λ r.
      if eq_ℤ r.rc (pos 0)
      then pure (only_options (text_fields (trim_space r.stdout)))
      else fail (failure (codes "could not get output"))

  abbrev pub no_site_option : Str
  no_site_option = codes "--no-site-packages"

  abbrev pub site_options : Str → Io (List Str)
  unfolding get_cmd_opts str_eq
  site_options path =
      if p.virtualenv_site_packages
      then pure (codes "--system-site-packages" ∷ [])
      else get_cmd_opts path >>= λ opts.
          pure (if any_of (str_eq no_site_option) opts then no_site_option ∷ [] else [])

  abbrev pub python_option : Str → List Str
  python_option path = (codes "-p" ++ path) ∷ []

  abbrev pub python_options : Io (List Str)
  unfolding contains is_py3
  python_options =
      if not (contains p.virtualenv_command (codes "pyenv"))
        && not (contains p.virtualenv_command (codes "-m venv"))
      then (if not (is_empty p.virtualenv_python)
          then pure (python_option p.virtualenv_python)
          else is_py3 tools.python >>= λ b. pure (if b then python_option tools.python else []))
      else fail (failure (codes "virtualenv_python should not be used when using the venv module"))

  -- The first word is read without a test that there is one.
  abbrev pub make_virtualenv : List Str → Io RunResult
  unfolding is_base get_bin_path site_options python_options run_command
  make_virtualenv [] = crash
  make_virtualenv (c ∷ cs) = (if is_base c then get_bin_path sys c [] true else pure c) >>= λ path.
      site_options path >>= λ site. python_options >>= λ python.
      run_command sys (args (path ∷ cs ++ (site ++ (python ++ get_virtualenv ∷ []))))

  unfoldable pub setup_virtualenv : Io RunResult
  unfolding make_virtualenv
  setup_virtualenv = lift (tools.shell_split p.virtualenv_command) >>= make_virtualenv

  abbrev pub pip_not_found : Outcome Fault Str → Io (List Str)
  pip_not_found (ok path) = pure (path ∷ [])
  pip_not_found (err e) =
      fail (failure (codes "Unable to find any pip to use.  pip needs to be installed."))
  pip_not_found panic = crash

  abbrev pub usable : Str → Io Bool
  unfolding exists is_executable
  usable path = exists sys path >>= λ there. if there then is_executable sys path else pure false

  unfoldable pub find_in_virtualenv : List Str → Io (List Str)
  unfolding usable
  find_in_virtualenv [] = fail (failure (codes "unable to find pip in the virtualenv"))
  find_in_virtualenv (name ∷ names) =
      usable (join_path sys (join_path sys get_virtualenv (codes "bin")) name) >>= λ b.
      if b
      then pure (join_path sys (join_path sys get_virtualenv (codes "bin")) name ∷ [])
      else find_in_virtualenv names

  abbrev pub find_pip : Str → Io (List Str)
  unfolding get_bin_path find_in_virtualenv
  find_pip name =
      if is_empty get_virtualenv
      then attempt (get_bin_path sys name [] true) >>= pip_not_found
      else find_in_virtualenv (name ∷ codes "pip" ∷ [])

  unfoldable pub get_pip : Io (List Str)
  unfolding find_pip has_pip_module has_prefix
  get_pip =
      if not (is_empty p.executable_name)
      then (if has_prefix p.executable_name (codes "/")
          then pure (p.executable_name ∷ [])
          else find_pip p.executable_name)
      else if is_empty get_virtualenv
      then (has_pip_module tools.python >>= λ b.
          if b
          then pure (tools.python ∷ codes "-m" ∷ codes "pip.__main__" ∷ [])
          else find_pip (codes "pip3"))
      else find_pip (codes "pip3")

  abbrev pub requirements_from : RunResult → Io (List Requirement)
  requirements_from r =
      if eq_ℤ r.rc (pos 42) then fail (failure r.stderr) else lift (tools.decode r.stdout)

  unfoldable pub convert_to_pip_requirements : List RequirementData → Io (List Requirement)
  unfolding get_python_code run_command
  convert_to_pip_requirements requirements =
      run_command sys
        (record (args (tools.python ∷ codes "--" ∷ [])) { stdin = get_python_code requirements })
      >>= requirements_from

  abbrev pub without_version : Str → RequirementData
  without_version name = record { name = name; version = [] }

  unfoldable pub get_pip_requirements : Io (List Requirement)
  unfolding convert_to_pip_requirements recover_package_name
  get_pip_requirements =
      convert_to_pip_requirements (map without_version (recover_package_name p.package_names))

  -- the first of the packages is read without a test that there is one
  unfoldable pub validate_version_name_combo : List Requirement → Outcome Fault Unit
  validate_version_name_combo packages = if is_empty p.version then ok tt else go packages
    where
      go : List Requirement → Outcome Fault Unit
      go [] = panic
      go (r ∷ rs) =
          if r.has_version_specifier
          then err (failure (codes "The 'version' argument conflicts with any version specifier"))
          else ok tt
