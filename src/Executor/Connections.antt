-- ===== src/Executor/Connections.antt =====
-- executor/conn/connection_manager.go: the connections of a host, one for each user. The passwords,
-- which nothing reads, are left out.
pub mod Reuse
use gosible.Base.{
  ℕ, Bool, true, false, Option, none, some, List, [], ◌∷◌, if◌then◌else◌, Outcome, ok, err, all_of,
}
use gosible.GoText.{Str, codes}
use gosible.Dict.{Dict, lookup, insert, values}
use gosible.Values.{Value, Vars, as_string, as_bool}
use gosible.Playbook.{Task}

-- utils/types: BecomeArgs
pub record BecomeArgs : Type 0 where
  pub user : Str
  pub become : Bool
  pub method : Str
  pub flags : Str
  pub password : Str

-- `&types.BecomeArgs{}`
abbrev pub no_become : BecomeArgs
no_become = record { user = []; become = false; method = []; flags = []; password = [] }

-- the settings that NewBecomeArgs reads
pub record BecomeDefaults : Type 0 where
  pub default_become_user : Str
  pub default_become_method : Str

abbrev pub new_become_args : BecomeDefaults → BecomeArgs
new_become_args s = record no_become {
  user = s.default_become_user;
  method = s.default_become_method;
}

-- a connection is a handle that createConnection returns
pub record ConnManager : Type 0 where
  pub default_conn : Option ℕ
  pub become_conns : Dict ℕ
  pub host : Str
  pub vars : Vars

abbrev pub new_manager : Str → Vars → ConnManager
new_manager host vars = record { default_conn = none; become_conns = []; host = host; vars = vars }

unfoldable pub update_opts : Vars → ConnManager → ConnManager
update_opts vars cm = record cm { vars = vars }

-- vars[name].(string), or what was there
unfoldable pub string_or : Vars → Str → Str → Str
unfolding lookup
string_or vars name default = elim (lookup name vars) [
  | none ↦ default
  | some v ↦ elim (as_string v) [ none ↦ default | some s ↦ s ]
]

unfoldable pub bool_or : Vars → Str → Bool → Bool
unfolding lookup
bool_or vars name default = elim (lookup name vars) [
  | none ↦ default
  | some v ↦ elim (as_bool v) [ none ↦ default | some b ↦ b ]
]

unfoldable pub get_become_args : BecomeDefaults → Task → ConnManager → BecomeArgs
unfolding string_or bool_or
get_become_args s task cm =
    let args = new_become_args s in
    record {
      user = string_or task.keywords (codes "become_user") args.user;
      become = bool_or task.keywords (codes "become") args.become;
      method = string_or task.keywords (codes "become_method") args.method;
      flags = string_or task.keywords (codes "become_flags") args.flags;
      password = string_or cm.vars (codes "become_pass") args.password;
    }

-- createConnection: a remote machine answers with a connection, or not
abbrev pub Create : Type 0
Create = Str → Vars → BecomeArgs → Option ℕ

pub data ConnError : Type 0 where
  no_connection : ConnError

abbrev pub GetConn : Type 0
GetConn = ConnManager × Outcome ConnError ℕ

-- a connection that is made is kept
abbrev pub keep_default : ConnManager → Option ℕ → GetConn
keep_default cm none = (cm, err no_connection)
keep_default cm (some c) = (record cm { default_conn = some c }, ok c)

abbrev pub keep_become : Str → ConnManager → Option ℕ → GetConn
keep_become user cm none = (cm, err no_connection)
keep_become user cm (some c) = (record cm { become_conns = insert user c cm.become_conns }, ok c)

unfoldable pub get_default_conn : Create → ConnManager → GetConn
get_default_conn create cm = elim cm.default_conn [
  | some c ↦ (cm, ok c)
  | none ↦ keep_default cm (create cm.host cm.vars no_become)
]

unfoldable pub get_become_conn : Create → BecomeArgs → ConnManager → GetConn
get_become_conn create args cm = elim (lookup args.user cm.become_conns) [
  | some c ↦ (cm, ok c)
  | none ↦ keep_become args.user cm (create cm.host cm.vars args)
]

unfoldable pub get_conn_for_task : BecomeDefaults → Create → Task → ConnManager → GetConn
unfolding get_become_args get_become_conn get_default_conn
get_conn_for_task s create task cm =
    let args = get_become_args s task cm in
    if args.become then get_become_conn create args cm else get_default_conn create cm

-- Close, where the parameter says which connections close with no error: only the connections of
-- `becomeConns` are closed
unfoldable pub close : (ℕ → Bool) → ConnManager → Bool
close closes cm = all_of closes (values cm.become_conns)

unfoldable pub close_conn_mgrs : (ℕ → Bool) → Dict ConnManager → Bool
unfolding close
close_conn_mgrs closes mgrs = all_of (close closes) (values mgrs)
