-- ===== src/Modules/Hostname.antt =====
-- modules/hostname/hostname.go: the ways in which systems keep the name of the host.
pub mod Networks
pub mod Runs
use gosible.Base.{
  ℕ, Bool, true, false, not, ◌&&◌, Option, none, some, List, [], ◌∷◌, ◌++◌, if◌then◌else◌, is_empty,
  any_of, map, drop, length, ltb, Outcome, ok, err, panic, take,
}
use gosible.GoText.{Str, codes, str_eq, has_prefix, split, join, trim_space}
use gosible.GoText.Lines.{unlines, scan_lines, trim_byte}
use gosible.Machine.{
  System, Machine, RunResult, Fault, failure, Io, pure, fail, crash, lift, wrap_error, ◌>>=◌, args,
  Command, run_command, read_file, write_file, open_or_create, validate_result,
}
use gosible.Machine.Paths.{get_bin_path, is_regular}

-- the strategies, with the file or the command that each has
pub data Strategy : Type 0 where
  file_strategy : Str → Strategy
  red_hat_strategy : Str → Strategy
  open_rc_strategy : Str → Strategy
  alpine_strategy : Str → Str → Strategy
  free_bsd_strategy : Str → Str → Strategy
  solaris_strategy : Str → Strategy
  systemd_strategy : Str → Strategy
  base_deriver_strategy : Strategy

abbrev pub update_failed : Str
update_failed = codes "failed to update hostname"

abbrev pub read_failed : Str
read_failed = codes "failed to read hostname"

abbrev pub hostname_key : Str
hostname_key = codes "HOSTNAME"

-- the second part of a line `HOSTNAME=…`
unfoldable pub second_part : List Str → Option Str
unfolding trim_space
second_part [] = none
second_part (a ∷ []) = none
second_part (a ∷ b ∷ ps) = some (trim_space b)

-- The value of the first line that begins with HOSTNAME and has an equals sign.
unfoldable pub find_network_name : List Str → Option Str
unfolding has_prefix trim_space second_part split
find_network_name [] = none
find_network_name (l ∷ ls) =
    let rest = find_network_name ls in
    if has_prefix (trim_space l) hostname_key
    then elim (second_part (split b'=' (trim_space l))) [ none ↦ rest | some v ↦ some v ]
    else rest

-- the line `HOSTNAME=name`
abbrev pub network_line : Str → Str
network_line name = hostname_key ++ b'=' ∷ name

-- Every line that begins with the key, and white space before it, is replaced.
unfoldable pub replace_lines : Str → Str → List Str → List Str
unfolding has_prefix trim_space
replace_lines key new [] = []
replace_lines key new (l ∷ ls) =
    (if has_prefix (trim_space l) key then new else l) ∷ replace_lines key new ls

abbrev pub begins : Str → Str → Bool
unfolding has_prefix trim_space
begins key l = has_prefix (trim_space l) key

unfoldable pub with_line : Str → Str → List Str → List Str
unfolding replace_lines begins
with_line key new ls =
    if any_of (begins key) ls
    then replace_lines key new ls
    else replace_lines key new ls ++ new ∷ []

abbrev pub quoted_key : Str
quoted_key = codes "hostname="

abbrev pub quoted_line : Str → Str
quoted_line name = quoted_key ++ b'"' ∷ name ++ b'"' ∷ []

-- `strings.Trim(line[10:], "\"")`; the slice is out of range where nothing follows the equals sign
abbrev after_quote : Str → Io Str
unfolding trim_byte
after_quote line = if ltb (length line) 10 then crash else pure (trim_byte b'"' (drop 10 line))

unfoldable pub find_quoted_name : List Str → Io Str
unfolding has_prefix trim_space after_quote
find_quoted_name [] = fail (failure (codes "couldn't find hostname line"))
find_quoted_name (l ∷ ls) =
    if has_prefix (trim_space l) quoted_key then after_quote (trim_space l) else find_quoted_name ls

module _ (sys : System) where
  abbrev checked_command : Command → Io RunResult
  unfolding run_command validate_result
  checked_command c = run_command sys c >>= λ r. lift (validate_result r) >>= λ _. pure r

  abbrev output_of : Command → Io Str
  unfolding checked_command trim_space
  output_of c = wrap_error read_failed (checked_command c) >>= λ r. pure (trim_space r.stdout)

  abbrev run_update : Command → Io Unit
  unfolding checked_command
  run_update c = wrap_error update_failed (checked_command c) >>= λ _. pure tt

  unfoldable pub file_hostname : Str → Io Str
  unfolding is_regular read_file trim_space
  file_hostname file = is_regular sys file >>= λ regular.
      if not regular
      then pure []
      else wrap_error read_failed (read_file sys file) >>= λ text. pure (trim_space text)

  abbrev or_not_found : Option Str → Io Str
  or_not_found none = fail (failure (codes "unable to locate HOSTNAME entry"))
  or_not_found (some name) = pure name

  unfoldable pub network_hostname : Str → Io Str
  unfolding read_file find_network_name scan_lines
  network_hostname file = wrap_error read_failed (read_file sys file) >>= λ text.
      or_not_found (find_network_name (scan_lines text))

  unfoldable pub set_network_hostname : Str → Str → Io Unit
  unfolding open_or_create with_line unlines write_file scan_lines
  set_network_hostname file name = wrap_error update_failed (open_or_create sys file) >>= λ text.
      wrap_error update_failed (
        write_file sys file
          (unlines (with_line hostname_key (network_line name) (scan_lines text))))

  unfoldable pub quoted_hostname : Str → Io Str
  unfolding is_regular read_file find_quoted_name scan_lines
  quoted_hostname file = wrap_error read_failed (is_regular sys file) >>= λ regular.
      if not regular
      then pure []
      else wrap_error read_failed (read_file sys file) >>= λ text.
          wrap_error read_failed (find_quoted_name (scan_lines text))

  unfoldable pub set_quoted_hostname : Str → Str → Io Unit
  unfolding open_or_create with_line unlines write_file scan_lines
  set_quoted_hostname file name = wrap_error update_failed (open_or_create sys file) >>= λ text.
      wrap_error update_failed
        (write_file sys file (unlines (with_line quoted_key (quoted_line name) (scan_lines text))))

  -- The lines of FreeBSD's file lose the white space at their ends, and there has to be a file.
  unfoldable pub set_free_bsd_hostname : Str → Str → Io Unit
  unfolding open_or_create with_line unlines write_file scan_lines is_regular trim_space
  set_free_bsd_hostname file name = wrap_error update_failed (is_regular sys file) >>= λ regular.
      (if regular then wrap_error update_failed (open_or_create sys file) else pure []) >>= λ text.
      wrap_error update_failed (
        write_file sys file
          (unlines (with_line quoted_key (quoted_line name) (map trim_space (scan_lines text)))))

  abbrev solaris_listprop : Command
  solaris_listprop = record {
    argv =
        codes "/usr/sbin/svccfg -s svc:/system/identity:node listprop -o value config/nodename"
        ∷ [];
    unsafe_shell = true;
    environ = [];
    path_prefix = [];
    cwd = [];
    stdin = [];
  }

  unfoldable pub systemd_hostname : Str → Bool → Io Str
  unfolding output_of
  systemd_hostname cmd permanent = output_of (
      args
        (cmd ∷ (if permanent then codes "--static" else codes "--transient") ∷ codes "status" ∷ []))

  unfoldable pub set_systemd_hostname : Str → Str → Str → Io Unit
  unfolding run_update
  set_systemd_hostname cmd name flag =
      if ltb 64 (length name)
      then wrap_error update_failed
          (fail (failure (codes "name cannot be longer than 64 characters on systemd servers")))
      else run_update (args (cmd ∷ flag ∷ codes "set-hostname" ∷ name ∷ []))

  unfoldable pub set_solaris_hostname : Str → Str → Bool → Io Unit
  unfolding run_update
  set_solaris_hostname cmd name permanent =
      run_update (args (if permanent then cmd ∷ name ∷ [] else cmd ∷ codes "-t" ∷ name ∷ []))

  unfoldable pub get_permanent_hostname : Strategy → Io Str
  unfolding file_hostname network_hostname quoted_hostname output_of systemd_hostname
  get_permanent_hostname (file_strategy file) = file_hostname file
  get_permanent_hostname (red_hat_strategy file) = network_hostname file
  get_permanent_hostname (open_rc_strategy file) = quoted_hostname file
  get_permanent_hostname (alpine_strategy file cmd) = file_hostname file
  get_permanent_hostname (free_bsd_strategy file cmd) = quoted_hostname file
  get_permanent_hostname (solaris_strategy cmd) = output_of solaris_listprop
  get_permanent_hostname (systemd_strategy cmd) = systemd_hostname cmd true
  get_permanent_hostname base_deriver_strategy =
      wrap_error read_failed (fail (failure (codes "getting hostname is not implemented")))

  unfoldable pub get_current_hostname : Strategy → Io Str
  unfolding get_permanent_hostname output_of systemd_hostname
  get_current_hostname (free_bsd_strategy file cmd) = output_of (args (cmd ∷ []))
  get_current_hostname (systemd_strategy cmd) = systemd_hostname cmd false
  get_current_hostname (file_strategy file) = get_permanent_hostname (file_strategy file)
  get_current_hostname (red_hat_strategy file) = get_permanent_hostname (red_hat_strategy file)
  get_current_hostname (open_rc_strategy file) = get_permanent_hostname (open_rc_strategy file)
  get_current_hostname (alpine_strategy file cmd) =
      get_permanent_hostname (alpine_strategy file cmd)
  get_current_hostname (solaris_strategy cmd) = get_permanent_hostname (solaris_strategy cmd)
  get_current_hostname base_deriver_strategy = get_permanent_hostname base_deriver_strategy

  unfoldable pub set_permanent_hostname : Strategy → Str → Io Unit
  unfolding set_network_hostname set_quoted_hostname set_free_bsd_hostname set_solaris_hostname
      set_systemd_hostname write_file
  set_permanent_hostname (file_strategy file) name =
      wrap_error update_failed (write_file sys file (name ++ codes "\n"))
  set_permanent_hostname (red_hat_strategy file) name = set_network_hostname file name
  set_permanent_hostname (open_rc_strategy file) name = set_quoted_hostname file name
  set_permanent_hostname (alpine_strategy file cmd) name =
      wrap_error update_failed (write_file sys file (name ++ codes "\n"))
  set_permanent_hostname (free_bsd_strategy file cmd) name = set_free_bsd_hostname file name
  set_permanent_hostname (solaris_strategy cmd) name = set_solaris_hostname cmd name true
  set_permanent_hostname (systemd_strategy cmd) name =
      set_systemd_hostname cmd name (codes "--pretty") >>= λ _.
      set_systemd_hostname cmd name (codes "--static")
  set_permanent_hostname base_deriver_strategy name =
      wrap_error update_failed (fail (failure (codes "setting hostname is not implemented")))

  unfoldable pub set_current_hostname : Strategy → Str → Io Unit
  unfolding set_solaris_hostname set_systemd_hostname run_update get_bin_path
  set_current_hostname (alpine_strategy file cmd) name =
      wrap_error update_failed (get_bin_path sys cmd [] true) >>= λ path.
      run_update (args (path ∷ codes "-F" ∷ file ∷ []))
  set_current_hostname (free_bsd_strategy file cmd) name = run_update (args (cmd ∷ name ∷ []))
  set_current_hostname (solaris_strategy cmd) name = set_solaris_hostname cmd name false
  set_current_hostname (systemd_strategy cmd) name =
      set_systemd_hostname cmd name (codes "--transient")
  set_current_hostname (file_strategy file) name = pure tt
  set_current_hostname (red_hat_strategy file) name = pure tt
  set_current_hostname (open_rc_strategy file) name = pure tt
  set_current_hostname base_deriver_strategy name = pure tt
