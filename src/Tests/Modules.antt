-- ===== src/Tests/Modules.antt =====
-- Runs of modules/.
use gosible.Base.{◌≡◌, refl, subst, ok, some, none, true, false, [], ◌∷◌, ◌++◌, Option}
use gosible.Base.Int.{ℤ, pos}
use gosible.GoText.{Str, codes, contains_byte, trim_space, str_eq}
use gosible.GoText.Numbers.{decimal}
use gosible.Dict.{lookup}
use gosible.Machine.{System, Machine, no_return, regular, ◌>>=◌}
use gosible.Modules.Group.{GroupParams, run_group}
use gosible.Modules.Group.Idempotent.{IsWanted, run_group_idempotent}
use gosible.Modules.Hostname.{set_network_hostname, network_hostname}
use gosible.Modules.Hostname.Networks.{IsName, set_network_hostname-network_hostname}
use gosible.Modules.Service.{ServiceParams, new_service, is_true, check_service_changed}
use gosible.Modules.Service.Linux.{get_service_tools}
use gosible.Modules.Service.Decisions.{
  reloaded, needed, is_needed, Takes, check_service_changed-modify_service_state,
}
use gosible.Modules.Service.Linux.Failing.{returns, get_service_tools_no_script}

-- a machine on which every command succeeds, and that has one group
abbrev system : System
system = record {
  answer = λ h c. ok (record { rc = pos 0; stdout = []; stderr = [] });
  files_after = λ h c. h.files;
  can_read = λ path. true;
  can_write = λ path. true;
  path_env = codes "/bin" ∷ [];
  lookup_group = λ h name. ok (some (record { name = codes "wheel"; gid = codes "10" }));
  lookup_group_id = λ h gid. ok none;
  glob = λ h pattern. ok none;
  platform = codes "Linux";
  distribution = codes "Rhel";
  merge_return = λ old update. update;
}

abbrev network_file : Str
network_file = codes "/etc/sysconfig/network"

abbrev machine : Machine
machine = record {
  host = record {
    files = (network_file, regular (codes "NETWORKING=yes\nHOSTNAME=old\n")) ∷ [];
    ran = [];
  };
  ret = no_return;
}

abbrev wheel : GroupParams
wheel = record {
  state = codes "present";
  name = codes "wheel";
  gid = some (pos 10);
  system = false;
  is_local = false;
  non_unique = false;
}

abbrev gid_of : Option ℤ → ℤ
gid_of none = pos 0
gid_of (some gid) = gid

wheel-IsWanted : IsWanted system wheel machine.host
unfolding str_eq decimal
wheel-IsWanted = record {
  in_system = refl;
  wants_present = refl;
  entry = record { name = codes "wheel"; gid = codes "10" };
  listed = refl;
  same_gid = λ gid e. subst (λ o. str_eq (codes "10") (decimal (gid_of o)) ≡ true) e refl;
}

run_group_idempotent_example : (run_group system wheel machine).0.host ≡ machine.host
run_group_idempotent_example = run_group_idempotent system wheel machine wheel-IsWanted

fresh_word-IsName : IsName (codes "node.example.org")
unfolding contains_byte trim_space
fresh_word-IsName = record {
  no_equals = refl;
  no_newline = refl;
  trimmed = refl;
  line_trimmed = refl;
}

has_network_file :
    lookup network_file machine.host.files ≡ some (regular (codes "NETWORKING=yes\nHOSTNAME=old\n"))
unfolding lookup str_eq
has_network_file = refl

set_network_hostname-network_hostname_example :
    ((set_network_hostname system network_file (codes "node.example.org") >>= λ _.
    network_hostname system network_file)
      machine).1
    ≡ ok (codes "node.example.org")
set_network_hostname-network_hostname_example =
    set_network_hostname-network_hostname system network_file machine (codes "node.example.org")
      (codes "NETWORKING=yes\nHOSTNAME=old\n") fresh_word-IsName refl refl has_network_file

abbrev reload_web : ServiceParams
reload_web = record {
  arguments = [];
  enabled = none;
  name = codes "web";
  pattern = [];
  runlevel = codes "default";
  state = codes "reloaded";
}

check_service_changed-modify_service_state_example :
    (check_service_changed system reload_web new_service machine
      ≡ ((new_service, machine), ok (is_needed (needed reloaded (is_true new_service.running)))))
    × Takes system reload_web new_service machine (needed reloaded (is_true new_service.running))
check_service_changed-modify_service_state_example =
    check_service_changed-modify_service_state system reload_web reloaded new_service machine refl

no_script : lookup (codes "/etc/init.d/" ++ reload_web.name) machine.host.files ≡ none
unfolding lookup str_eq
no_script = refl

get_service_tools_no_script_example :
    returns (get_service_tools system reload_web new_service machine) ≡ false
get_service_tools_no_script_example =
    get_service_tools_no_script system reload_web machine.host new_service machine refl no_script
