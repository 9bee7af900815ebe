-- ===== src/Modules/WaitFor.antt =====
-- modules/waitFor/wait_for.go: its parameters, what it asks of the system, and the connections that
-- it counts. What the system answers depends on all that happened before; the latest stands first.
pub mod Waiting
pub mod Keeping
pub mod Idle
pub mod Ending
use gosible.Base.{
  ℕ, Bool, true, false, not, ◌&&◌, ◌||◌, Option, none, some, List, [], ◌∷◌, ◌++◌, if◌then◌else◌,
  is_empty, any_of, ◌==◌, Outcome, ok, err, panic, length, take, drop, ◌+◌,
}
use gosible.Base.Int.{ℤ, pos}
use gosible.GoText.{Str, codes, str_eq, has_prefix}
use gosible.Machine.{Fault, failure}

-- Return
pub record WaitReport : Type 0 where
  pub elapsed : ℤ
  pub match_group_dict : List (Str × Str)
  pub match_groups : List Str
  pub wait_state : Str
  pub wait_port : ℕ
  pub wait_regex : Str
  pub wait_path : Str

abbrev pub no_report : WaitReport
no_report = record {
  elapsed = pos 0;
  match_group_dict = [];
  match_groups = [];
  wait_state = [];
  wait_port = 0;
  wait_regex = [];
  wait_path = [];
}

-- Params; a port is an uint32
pub record WaitParams : Type 0 where
  pub host : Str
  pub timeout : ℤ
  pub connect_timeout : ℤ
  pub delay : ℤ
  pub port : ℕ
  pub active_connection_states : List Str
  pub path : Str
  pub search_regex : Str
  pub state : Str
  pub exclude_hosts : List Str
  pub sleep : ℤ
  pub msg : Str

-- what New sets
abbrev pub wait_defaults : WaitParams
wait_defaults = record {
  host = codes "127.0.0.1";
  timeout = pos 300;
  connect_timeout = pos 5;
  delay = pos 0;
  port = 0;
  active_connection_states =
      codes "ESTABLISHED"
      ∷ codes "FIN_WAIT1"
      ∷ codes "FIN_WAIT2"
      ∷ codes "SYN_RECV"
      ∷ codes "SYN_SENT"
      ∷ codes "TIME_WAIT"
      ∷ [];
  path = [];
  search_regex = [];
  state = codes "started";
  exclude_hosts = [];
  sleep = pos 1;
  msg = [];
}

abbrev pub is_one_of : List Str → Str → Bool
unfolding str_eq
is_one_of xs s = any_of (str_eq s) xs

abbrev pub wait_options : List Str
wait_options =
    codes "absent" ∷ codes "drained" ∷ codes "present" ∷ codes "started" ∷ codes "stopped" ∷ []

-- Params.Validate
unfoldable pub validate_wait_params : WaitParams → Outcome Fault Unit
unfolding str_eq
validate_wait_params p =
    if is_one_of wait_options p.state
    then err (failure (codes "invalid option for state"))
    else if not (is_empty p.path) && not (p.port == 0)
    then err (failure (codes "port and path parameter can not both be passed to wait_for"))
    else if not (is_empty p.path) && str_eq p.state (codes "stopped")
    then err (failure (codes "state=stopped should only be used for checking a port"))
    else if not (is_empty p.path) && str_eq p.state (codes "drained")
    then err (failure (codes "state=drained should only be used for checking a port"))
    else if not (is_empty p.exclude_hosts) && not (str_eq p.state (codes "drained"))
    then err (failure (codes "exclude_hosts should only be with state=drained"))
    else ok tt

-- an `error` of package net: whether it is a net.Error, and then its Timeout()
pub record NetFault : Type 0 where
  pub is_net : Bool
  pub timed_out : Bool
  pub cause : Fault

-- net.ConnectionStat of gopsutil: the addresses are texts
pub record ConnectionStat : Type 0 where
  pub family : ℕ
  pub status : Str
  pub local_ip : Str
  pub local_port : ℕ
  pub remote_ip : Str

-- a *regexp.Regexp: Match, FindStringSubmatch and SubexpNames
pub record Regexp : Type 0 where
  pub matches : Str → Bool
  pub submatches : Str → List Str
  pub names : List Str

pub data Event : Type 0 where
  read_clock : Event
  slept : ℤ → Event
  reported : WaitReport → Event
  looked_at : Str → Event
  read_content : Str → Event
  dialled : Str → ℤ → Event
  deadline_set : ℤ → Event
  received : Event
  closed : Event
  looked_up : Str → Event
  listed : Event

abbrev pub Trace : Type 0
Trace = List Event

-- the system: the clock in nanoseconds, files, connections, DNS; and package regexp
pub record Surroundings : Type 0 where
  pub clock : Trace → ℤ
  pub stat_error : Trace → Str → Option Fault
  pub content : Trace → Str → Outcome Fault Str
  pub dial_error : Trace → Str → ℤ → Option NetFault
  pub deadline_error : Trace → ℤ → Option Fault
  pub incoming : Trace → Str
  pub close_error : Trace → Option NetFault
  pub look_up_ip : Trace → Str → Outcome Fault (List Str)
  pub connections : Trace → Outcome Fault (List ConnectionStat)
  pub compile : Str → Outcome Fault Regexp

abbrev pub Wait : Type 0 → Type 0
Wait A = Trace → Trace × Outcome Fault A

module _ {A B : Type 0} where
  abbrev pub continue_wait : Trace × Outcome Fault A → (A → Wait B) → Trace × Outcome Fault B
  continue_wait (es, ok a) f = f a es
  continue_wait (es, err e) f = (es, err e)
  continue_wait (es, panic) f = (es, panic)

  infixl 5 ◌>>=◌
  abbrev pub ◌>>=◌ : Wait A → (A → Wait B) → Wait B
  (m >>= f) es = continue_wait (m es) f

module _ {A : Type 0} where
  -- something happens, and the system answers
  abbrev pub perform : Event → (Trace → Outcome Fault A) → Wait A
  perform e answer es = (e ∷ es, answer es)

  abbrev pub give : Outcome Fault A → Wait A
  give r es = (es, r)

abbrev pub send_report : WaitReport → Wait Unit
send_report r = perform (reported r) (λ es. ok tt)

abbrev pub pause : ℤ → Wait Unit
pause d = perform (slept d) (λ es. ok tt)

-- net.IP's To4, whether it is not nil
abbrev pub v4_prefix : Str
v4_prefix = 0 ∷ 0 ∷ 0 ∷ 0 ∷ 0 ∷ 0 ∷ 0 ∷ 0 ∷ 0 ∷ 0 ∷ 255 ∷ 255 ∷ []

abbrev pub is_v4 : Str → Bool
unfolding has_prefix
is_v4 ip = length ip == 4 || (length ip == 16 && has_prefix ip v4_prefix)

abbrev pub mapped_prefix : Str
mapped_prefix = codes "::ffff"

abbrev pub mapped_match_all : Str
mapped_match_all = codes "::ffff:0.0.0.0"

-- the loop of convertHostToIp
unfoldable pub with_mapped : List Str → List Str
unfolding has_prefix
with_mapped [] = []
with_mapped (ip ∷ ips) =
    let rest = with_mapped ips in
    ip ∷ (if is_v4 ip then (mapped_prefix ++ codes ":" ++ ip) ∷ rest else rest)

-- matchAllIps: AF_INET is 2 and AF_INET6 is 10, and another family has a nil address
abbrev pub match_all_ips : ℕ → Str
match_all_ips family =
    if family == 2
    then v4_prefix ++ (0 ∷ 0 ∷ 0 ∷ 0 ∷ [])
    else if family == 10
    then 0 ∷ 0 ∷ 0 ∷ 0 ∷ 0 ∷ 0 ∷ 0 ∷ 0 ∷ 0 ∷ 0 ∷ 0 ∷ 0 ∷ 0 ∷ 0 ∷ 0 ∷ 0 ∷ []
    else []

-- inIpList, by bytes.Equal
unfoldable pub in_ip_list : List Str → Str → Bool
unfolding str_eq
in_ip_list ips ip = any_of (str_eq ip) ips

unfoldable pub is_in_ips : List Str → ℕ → Str → Bool
unfolding in_ip_list has_prefix
is_in_ips ips family ip =
    in_ip_list ips ip
    || in_ip_list ips (match_all_ips family)
    || (has_prefix ip mapped_prefix && in_ip_list ips mapped_match_all)

-- tcpConnectionInfo
pub record TcpConnectionInfo : Type 0 where
  pub ips : List Str
  pub exclude_ips : List Str

-- the test of the loop in getActiveConnectionsCount
unfoldable pub is_active : WaitParams → TcpConnectionInfo → ConnectionStat → Bool
unfolding in_ip_list is_in_ips str_eq
is_active p t c =
    is_one_of p.active_connection_states c.status
    && c.local_port == p.port
    && not (in_ip_list t.exclude_ips c.remote_ip)
    && is_in_ips t.ips c.family c.local_ip

unfoldable pub count_active : WaitParams → TcpConnectionInfo → List ConnectionStat → ℕ
unfolding is_active
count_active p t [] = 0
count_active p t (c ∷ cs) =
    let rest = count_active p t cs in if is_active p t c then rest + 1 else rest

module _ (env : Surroundings) where
  unfoldable pub convert_host_to_ip : Str → Wait (List Str)
  unfolding with_mapped
  convert_host_to_ip name =
      perform (looked_up name) (λ es. env.look_up_ip es name) >>= λ ips. give (ok (with_mapped ips))

  unfoldable pub get_exclude_ips : List Str → Wait (List Str)
  unfolding convert_host_to_ip
  get_exclude_ips [] = give (ok [])
  get_exclude_ips (name ∷ names) =
      convert_host_to_ip name >>= λ ips. get_exclude_ips names >>= λ rest. give (ok (ips ++ rest))

  abbrev pub connection_info : List Str → List Str → TcpConnectionInfo
  connection_info own excluded = record { ips = own; exclude_ips = excluded }

  abbrev pub with_excluded : WaitParams → List Str → Wait TcpConnectionInfo
  with_excluded p own =
      get_exclude_ips p.exclude_hosts >>= λ excluded. give (ok (connection_info own excluded))

  unfoldable pub new_tcp_connection_info : WaitParams → Wait TcpConnectionInfo
  unfolding convert_host_to_ip get_exclude_ips
  new_tcp_connection_info p = convert_host_to_ip p.host >>= with_excluded p

  unfoldable pub get_active_connections_count : WaitParams → TcpConnectionInfo → Wait ℕ
  unfolding count_active
  get_active_connections_count p t =
      perform listed env.connections >>= λ conns. give (ok (count_active p t conns))
