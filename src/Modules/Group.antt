-- ===== src/Modules/Group.antt =====
-- modules/group/group.go: the commands by which a group is made, changed and removed.
pub mod Idempotent
use gosible.Base.{
  Bool, true, false, not, ◌&&◌, ◌||◌, Option, none, some, List, [], ◌∷◌, ◌++◌, if◌then◌else◌,
  is_empty, any_of, length, ◌==◌, Outcome, ok, err, panic,
}
use gosible.Base.Int.{ℤ, pos, eq_ℤ}
use gosible.GoText.{Str, codes, str_eq, has_prefix, split}
use gosible.GoText.Numbers.{decimal}
use gosible.Values.{Value, str, bool, int, map, field, null, Fields}
use gosible.Machine.{
  System, Machine, GroupEntry, RunResult, Return, no_return, Fault, failure, Io, pure, fail, crash,
  lift, ◌>>=◌, args, run_command, read_file, update_return, get_return, or_failed,
  mark_return_failed,
}
use gosible.Machine.Paths.{get_bin_path, exists}
use gosible.Utilities.Version.{parse_int}

pub record GroupParams : Type 0 where
  pub state : Str
  pub name : Str
  pub gid : Option ℤ
  pub system : Bool
  pub is_local : Bool
  pub non_unique : Bool

abbrev pub is_none {ℓ} : {A : Type ℓ} → Option A → Bool
is_none none = true
is_none (some a) = false

-- Params.Validate
unfoldable pub validate_group_params : GroupParams → Outcome Fault Unit
unfolding str_eq
validate_group_params p =
    if not (str_eq p.state (codes "present")) && not (str_eq p.state (codes "absent"))
    then err (failure (codes "state can only be present or absent"))
    else if is_empty p.name
    then err (failure (codes "name parameter is required"))
    else if p.non_unique && is_none p.gid
    then err (failure (codes "when non_unique is selected gid must be provided"))
    else ok tt

abbrev group_file : Str
group_file = codes "/etc/group"

module _ (sys : System) (p : GroupParams) where
  abbrev is_found : Option GroupEntry → Bool
  is_found entry = not (is_none entry)

  unfoldable pub group_exists_in_system : Io Bool
  group_exists_in_system w =
      (lift (sys.lookup_group w.host p.name) >>= λ entry. pure (is_found entry)) w

  -- Lines end at a newline; a scanner's limit on their length is left out.
  unfoldable pub group_exists_locally : Io Bool
  unfolding exists read_file split has_prefix
  group_exists_locally = exists sys group_file >>= λ found.
      if not found
      then fail (failure (codes "'local: true' specified but unable to find local group file"))
      else read_file sys group_file >>= λ text.
          pure (any_of (λ line. has_prefix line (p.name ++ codes ":")) (split b'\n' text))

  unfoldable pub group_exists : Io Bool
  unfolding group_exists_locally group_exists_in_system
  group_exists = if p.is_local then group_exists_locally else group_exists_in_system

  abbrev pub known_group : Option GroupEntry → Io (Option GroupEntry)
  known_group none = fail (failure (codes "unknown group"))
  known_group (some entry) = pure (some entry)

  unfoldable pub group_info : Io (Option GroupEntry)
  unfolding group_exists
  group_info = group_exists >>= λ found.
      if found then (λ w. (lift (sys.lookup_group w.host p.name) >>= known_group) w) else pure none

  abbrev is_own : ℤ → Option GroupEntry → Io Unit
  unfolding str_eq
  is_own gid none = fail (failure (codes "unknown group id"))
  is_own gid (some entry) =
      if str_eq entry.name p.name then pure tt else fail (failure (codes "GID already exists"))

  -- A group id that no group has is an error here, too.
  unfoldable pub local_check_gid_exists : Io Unit
  unfolding is_own decimal
  local_check_gid_exists = elim p.gid as (λ _. Io Unit) [
    | none ↦ pure tt
    | some gid ↦ λ w. (lift (sys.lookup_group_id w.host (decimal gid)) >>= is_own gid) w
  ]

  unfoldable pub get_local_or_system_command_path : Str → Str → Io Str
  unfolding local_check_gid_exists get_bin_path
  get_local_or_system_command_path system_name local_name =
      if p.is_local
      then (local_check_gid_exists >>= λ _. get_bin_path sys local_name [] true)
      else get_bin_path sys system_name [] true

  unfoldable pub group_del : Io (Option RunResult)
  unfolding get_local_or_system_command_path run_command
  group_del = get_local_or_system_command_path (codes "groupdel") (codes "lgroupdel") >>= λ path.
      run_command sys (args (path ∷ p.name ∷ [])) >>= λ r. pure (some r)

  abbrev pub has_gid : ℤ → Option GroupEntry → Bool
  unfolding str_eq decimal
  has_gid gid none = false
  has_gid gid (some entry) = str_eq entry.gid (decimal gid)

  unfoldable pub gid_options : ℤ → Option GroupEntry → List Str
  unfolding has_gid decimal
  gid_options gid info =
      if has_gid gid info
      then []
      else codes "-g" ∷ decimal gid ∷ (if p.non_unique then codes "-o" ∷ [] else [])

  -- getCmdGroupAddModCmd, after the path
  unfoldable pub add_mod_options : Option ℤ → Io (List Str)
  unfolding group_info gid_options
  add_mod_options none = pure []
  add_mod_options (some gid) = group_info >>= λ info. pure (gid_options gid info)

  unfoldable pub group_add : Io (Option RunResult)
  unfolding get_local_or_system_command_path add_mod_options run_command
  group_add = get_local_or_system_command_path (codes "groupadd") (codes "lgroupadd") >>= λ path.
      add_mod_options p.gid >>= λ options.
      run_command sys
        (args (path ∷ options ++ ((if p.system then codes "-r" ∷ [] else []) ++ p.name ∷ [])))
      >>= λ r. pure (some r)

  abbrev pub modify : Str → List Str → Io (Option RunResult)
  unfolding run_command
  modify path [] = pure none
  modify path (o ∷ options) =
      run_command sys (args (path ∷ (o ∷ options) ++ p.name ∷ [])) >>= λ r. pure (some r)

  -- With no options there is nothing to change, and no command is run.
  unfoldable pub group_mod : Io (Option RunResult)
  unfolding get_local_or_system_command_path add_mod_options modify
  group_mod = get_local_or_system_command_path (codes "groupmod") (codes "lgroupmod") >>= λ path.
      add_mod_options p.gid >>= modify path

  abbrev pub check_rc_of_group : Option RunResult → Io (Option RunResult)
  check_rc_of_group none = pure none
  check_rc_of_group (some r) =
      if eq_ℤ r.rc (pos 0) then pure (some r) else fail (failure (codes "failed removing group"))

  -- the first part of Run: what is done to the group
  unfoldable pub apply_state : Io (Option RunResult)
  unfolding group_exists group_del group_mod group_add str_eq
  apply_state =
      if str_eq p.state (codes "absent")
      then (group_exists >>= λ found. if found then group_del >>= check_rc_of_group else pure none)
      else group_exists >>= λ found. (if found then group_mod else group_add) >>= check_rc_of_group

  abbrev pub report : Option RunResult → Io Unit
  unfolding update_return
  report none = pure tt
  report (some r) =
      update_return sys (record no_return { changed = true; stderr = r.stderr; stdout = r.stdout })

  abbrev details : Bool → ℤ → Value
  details found gid = map (
      field (str (codes "Exists")) (bool found) (
        field (str (codes "System")) (bool p.system)
          (field (str (codes "Gid")) (int gid) Fields.end)))

  abbrev pub report_gid : Option ℤ → Io Unit
  unfolding update_return
  report_gid none = fail (failure (codes "invalid syntax"))
  report_gid (some gid) = update_return sys (record no_return { specific = details true gid })

  abbrev pub report_info : Option GroupEntry → Io Unit
  unfolding report_gid parse_int
  report_info none = pure tt
  report_info (some info) = report_gid (parse_int info.gid)

  abbrev pub first_return : Return
  first_return = record no_return {
    specific = map (
        field (str (codes "Name")) (str p.name)
          (field (str (codes "State")) (str p.state) Fields.end));
  }

  -- the last part of Run: the group as it is in the end
  unfoldable pub report_all : Option GroupEntry → Io Return
  unfolding report_info
  report_all info = report_info info >>= λ _. get_return

  unfoldable pub report_result : Option RunResult → Io Return
  unfolding report group_info report_all
  report_result result = report result >>= λ _. group_info >>= report_all

  unfoldable pub act : Io Return
  unfolding update_return apply_state report_result
  act = update_return sys first_return >>= λ _. apply_state >>= report_result

  unfoldable pub run_group_body : Io Return
  unfolding validate_group_params act
  run_group_body = lift (validate_group_params p) >>= λ _. act

  -- Run, for parameters that have been decoded; a module has nothing to close here
  unfoldable pub run_group : Io Return
  unfolding run_group_body or_failed
  run_group = or_failed run_group_body
