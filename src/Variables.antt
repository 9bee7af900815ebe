-- ===== src/Variables.antt =====
-- vars/utils.go, vars/manager.go's SetMagicVars and constants/magic_variable_mapping.go: maps of
-- variables, their templates, and the names that stand for others.
pub mod Manager
pub mod Gather
pub mod Sorting
pub mod Unique
pub mod Invariant
pub mod Reachable
pub mod LoopItems
pub mod Stack
pub mod Sources
pub mod Layers
pub mod Groups
use gosible.Base.{
  Bool, true, false, Option, none, some, List, [], ◌∷◌, if◌then◌else◌, Outcome, ok, err, ◌>>=◌,
}
use gosible.GoText.{Str, codes}
use gosible.Dict.{Dict, lookup, insert, merge}
use gosible.Values.{Value, str, Vars}
use gosible.Templating.{Templar, TemplateError}
use gosible.Parsing.KeyValue.{Options}

-- a copy of both, in which `b` wins
unfoldable pub combine_vars : Vars → Vars → Vars
unfolding merge
combine_vars a b = merge (merge [] a) b

unfoldable pub map_string_string_onto : Vars → Options → Vars
unfolding insert
map_string_string_onto result [] = result
map_string_string_onto result ((k, v) ∷ m) = map_string_string_onto (insert k (str v) result) m

unfoldable pub map_string_string_to_vars : Options → Vars
unfolding map_string_string_onto
map_string_string_to_vars m = map_string_string_onto [] m

-- one value of TemplateVarsTemplates: a text that is a template is rendered in `env`
unfoldable pub template_value : Templar → Vars → Value → Outcome TemplateError Value
template_value t env (str s) = if t.is_template s then t.template env s else ok (str s)
template_value t env v = ok v

unfoldable pub template_vars_onto : Templar → Vars → Vars → Vars → Outcome TemplateError Vars
unfolding template_value
template_vars_onto t env templated [] = ok templated
template_vars_onto t env templated ((key, v) ∷ templates) =
    template_value t env v >>= λ x. template_vars_onto t env (insert key x templated) templates

unfoldable pub template_vars_templates : Templar → Vars → Vars → Outcome TemplateError Vars
unfolding template_vars_onto
template_vars_templates t templates env = template_vars_onto t env [] templates

-- TemplateActionArgs only adds debug output.
unfoldable pub template_action_args : Templar → Vars → Vars → Outcome TemplateError Vars
unfolding template_vars_templates
template_action_args t args vars = template_vars_templates t args vars

abbrev pub magic_variable_mapping : Dict (List Str)
magic_variable_mapping =
    (codes "connection", codes "ansible_connection" ∷ [])
    ∷ (codes "module_compression", codes "ansible_module_compression" ∷ [])
    ∷ (codes "shell", codes "ansible_shell_type" ∷ [])
    ∷ (codes "executable", codes "ansible_shell_executable" ∷ [])
    ∷ (codes "remote_addr", codes "ansible_ssh_host" ∷ codes "ansible_host" ∷ [])
    ∷ (codes "remote_user", codes "ansible_ssh_user" ∷ codes "ansible_user" ∷ [])
    ∷ (codes "password", codes "ansible_ssh_pass" ∷ codes "ansible_password" ∷ [])
    ∷ (codes "port", codes "ansible_ssh_port" ∷ codes "ansible_port" ∷ [])
    ∷ (codes "pipelining", codes "ansible_ssh_pipelining" ∷ codes "ansible_pipelining" ∷ [])
    ∷ (codes "timeout", codes "ansible_ssh_timeout" ∷ codes "ansible_timeout" ∷ [])
    ∷ (
      codes "private_key_file",
      codes "ansible_ssh_private_key_file" ∷ codes "ansible_private_key_file" ∷ [],
    )
    ∷ (codes "network_os", codes "ansible_network_os" ∷ [])
    ∷ (codes "connection_user", codes "ansible_connection_user" ∷ [])
    ∷ (codes "ssh_executable", codes "ansible_ssh_executable" ∷ [])
    ∷ (codes "ssh_common_args", codes "ansible_ssh_common_args" ∷ [])
    ∷ (codes "sftp_extra_args", codes "ansible_sftp_extra_args" ∷ [])
    ∷ (codes "scp_extra_args", codes "ansible_scp_extra_args" ∷ [])
    ∷ (codes "ssh_extra_args", codes "ansible_ssh_extra_args" ∷ [])
    ∷ (codes "ssh_transfer_method", codes "ansible_ssh_transfer_method" ∷ [])
    ∷ (codes "docker_extra_args", codes "ansible_docker_extra_args" ∷ [])
    ∷ (codes "become", codes "ansible_become" ∷ [])
    ∷ (codes "become_method", codes "ansible_become_method" ∷ [])
    ∷ (codes "become_user", codes "ansible_become_user" ∷ [])
    ∷ (codes "become_pass", codes "ansible_become_password" ∷ codes "ansible_become_pass" ∷ [])
    ∷ (codes "become_exe", codes "ansible_become_exe" ∷ [])
    ∷ (codes "become_flags", codes "ansible_become_flags" ∷ [])
    ∷ []

unfoldable pub magic_variable_mapped_names : Str → List Str
unfolding lookup
magic_variable_mapped_names key = elim (lookup key magic_variable_mapping) [
  | none ↦ []
  | some v ↦ v
]

-- the inner loop: the last of the names that has a value wins
unfoldable pub set_magic_var : Vars → Str → List Str → Vars → Vars
unfolding lookup insert
set_magic_var src attr [] res = res
set_magic_var src attr (name ∷ names) res =
    set_magic_var src attr names
      (elim (lookup name src) [ none ↦ res | some v ↦ insert attr v res ])

unfoldable pub set_magic_vars_onto : Vars → Dict (List Str) → Vars → Vars
unfolding set_magic_var
set_magic_vars_onto src [] res = res
set_magic_vars_onto src ((attr, names) ∷ mapping) res =
    set_magic_vars_onto src mapping (set_magic_var src attr names res)

unfoldable pub set_magic_vars : Vars → Vars
unfolding set_magic_vars_onto
set_magic_vars src = set_magic_vars_onto src magic_variable_mapping []
