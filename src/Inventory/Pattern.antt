-- ===== src/Inventory/Pattern.antt =====
-- inventory/common.go: `DetermineHosts` and `determineHostsFromGroupsPattern`. The depth that the
-- recursion of `GetHosts` may take is the first argument.
pub mod Selection
use gosible.Base.{
  ℕ, Bool, true, false, ◌&&◌, ◌||◌, Option, none, some, List, [], ◌∷◌, ◌++◌, ◌==◌, if◌then◌else◌,
  Outcome, ok, err, ◌>>=◌, not,
}
use gosible.GoText.{Str, codes, str_eq, contains_byte, split, trim_space}
use gosible.Dict.{Dict, lookup, has, insert, delete, merge, keys}
use gosible.Inventory.{Host, Group, Inventory, get_hosts}

pub data PatternError : Type 0 where
  no_group no_host no_host_or_group : Str → PatternError

abbrev pub Hosts : Type 0
Hosts = Dict Host

-- `!name`, `&name`, `name`; the empty term is an error
pub data Term : Type 0 where
  exclude intersect include : Str → Term
  empty : Term

unfoldable pub read_term : Str → Term
read_term [] = empty
read_term (c ∷ name) =
    if c == b'!' then exclude name else if c == b'&' then intersect name else include (c ∷ name)

-- for hostName := range groupHosts { delete(hosts, hostName) }
unfoldable pub delete_all : List Str → Hosts → Hosts
delete_all [] hosts = hosts
delete_all (n ∷ ns) hosts = delete_all ns (delete n hosts)

-- the names of `hosts` that are not in `groupHosts`
unfoldable pub hosts_to_delete : Hosts → Hosts → List Str
hosts_to_delete group_hosts [] = []
hosts_to_delete group_hosts ((n, h) ∷ hosts) =
    let rest = hosts_to_delete group_hosts hosts in if has n group_hosts then rest else n ∷ rest

-- `groupHosts`, if the group is there
abbrev pub members : ℕ → Inventory → Str → Outcome PatternError Hosts
members depth d name = elim (lookup name d.groups) [
  | none ↦ err (no_group name)
  | some g ↦ ok (get_hosts depth d name)
]

unfoldable pub step_term : ℕ → Inventory → Term → Hosts → Outcome PatternError Hosts
unfolding delete_all hosts_to_delete
step_term depth d empty hosts = err (no_group [])
step_term depth d (exclude name) hosts =
    members depth d name >>= λ group_hosts. ok (delete_all (keys group_hosts) hosts)
step_term depth d (intersect name) hosts = members depth d name >>= λ group_hosts.
    ok (delete_all (hosts_to_delete group_hosts hosts) hosts)
step_term depth d (include name) hosts =
    members depth d name >>= λ group_hosts. ok (merge hosts group_hosts)

unfoldable pub step_terms : ℕ → Inventory → List Str → Hosts → Outcome PatternError Hosts
unfolding step_term read_term
step_terms depth d [] hosts = ok hosts
step_terms depth d (t ∷ ts) hosts =
    step_term depth d (read_term t) hosts >>= λ hosts'. step_terms depth d ts hosts'

unfoldable pub determine_hosts_from_groups_pattern :
    ℕ → Inventory → Str → Outcome PatternError Hosts
unfolding step_terms
determine_hosts_from_groups_pattern depth d pattern = step_terms depth d (split b':' pattern) []

-- the loop over `strings.Split(pattern, ",")`
unfoldable pub list_hosts : Inventory → List Str → Hosts → Outcome PatternError Hosts
list_hosts d [] hosts = ok hosts
list_hosts d (n ∷ ns) hosts =
    let rest = λ (h : Host). list_hosts d ns (insert n h hosts) in
    elim (lookup n d.hosts) [ none ↦ err (no_host n) | some h ↦ rest h ]

-- no comma and no colon: one host, or one group
unfoldable pub single : ℕ → Inventory → Str → Outcome PatternError Hosts
single depth d pattern = elim (lookup pattern d.hosts) [
  | some h ↦ ok ((pattern, h) ∷ [])
  | none ↦ elim (lookup pattern d.groups) [
    | some g ↦ ok (get_hosts depth d pattern)
    | none ↦ err (no_host_or_group pattern)
  ]
]

unfoldable pub determine_hosts : ℕ → Inventory → Str → Outcome PatternError Hosts
unfolding single list_hosts determine_hosts_from_groups_pattern
determine_hosts depth d raw =
    let pattern = trim_space raw in
    let has_commas = contains_byte b',' pattern in
    let has_colons = contains_byte b':' pattern in
    if str_eq pattern []
    then ok []
    else if str_eq pattern (codes "all")
    then ok d.hosts
    else if not has_commas && not has_colons
    then single depth d pattern
    else if has_commas
    then list_hosts d (split b',' pattern) []
    else determine_hosts_from_groups_pattern depth d pattern
