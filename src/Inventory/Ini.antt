-- ===== src/Inventory/Ini.antt =====
-- inventory/ini.go: an inventory from the text of an INI file. The regular expressions are written
-- out for a line: it has no newline. A line too long for bufio's Scanner is left out.
pub mod States
pub mod Loading
use gosible.Base.{
  ℕ, zero, suc, length, Bool, true, false, not, ◌&&◌, ◌||◌, Option, none, some, List, [], ◌∷◌, ◌++◌,
  if◌then◌else◌, is_empty, all_of, any_of, last?, leb, ◌==◌, Outcome, ok, err, panic, ◌>>=◌, map,
}
use gosible.GoText.{Str, codes, str_eq, trim_space, split, contains_byte}
use gosible.GoText.Lines.{scan_lines}
use gosible.Dict.{Dict, insert}
use gosible.Values.{Value, Vars, str}
use gosible.Inventory.{
  Inventory, new_data, new_group, group_at, put_group, group_by_name, add_vars_to_host,
}
use gosible.Inventory.Format.{InventoryError, all_name, format_and_validate}
use gosible.Inventory.Yaml.{RawGroup, process_hosts, adopt_children, initialize}

pub data IniError : Type 0 where
  unexpected_child unexpected_vars unexpected_host : IniError
  invalid_inventory : InventoryError → IniError

pub data SectionType : Type 0 where
  hosts_section vars_section children_section : SectionType

-- [0-9A-Za-z_-]
abbrev pub is_name_byte : ℕ → Bool
is_name_byte c =
    (leb b'0' c && leb c b'9')
    || (leb b'A' c && leb c b'Z')
    || (leb b'a' c && leb c b'z')
    || c == b'_'
    || c == b'-'

-- \s
abbrev pub is_blank : ℕ → Bool
is_blank c = c == 9 || c == 10 || c == 12 || c == 13 || c == 32

abbrev pub is_not_blank : ℕ → Bool
is_not_blank c = not (is_blank c)

-- sectionRegex: what stands between the brackets is not empty and has no white space
unfoldable pub is_section : Str → Bool
is_section [] = false
is_section (c ∷ s) = c == b'[' && inside_of s
  where
    closing : Option ℕ → Bool
    closing none = false
    closing (some c) = c == b']'

    inside_of : Str → Bool
    inside_of [] = false
    inside_of (d ∷ []) = false
    inside_of (d ∷ e ∷ s) = all_of is_not_blank (d ∷ e ∷ s) && closing (last? (d ∷ e ∷ s))

abbrev pub is_bracket : ℕ → Bool
is_bracket c = c == b'[' || c == b']'

abbrev pub drop_brackets : Str → Str
drop_brackets [] = []
drop_brackets (c ∷ s) = let rest = drop_brackets s in if is_bracket c then rest else c ∷ s

abbrev pub push_unless_bracket : ℕ → Str → Str
push_unless_bracket c [] = if is_bracket c then [] else c ∷ []
push_unless_bracket c (d ∷ s) = c ∷ d ∷ s

abbrev pub drop_last_brackets : Str → Str
drop_last_brackets [] = []
drop_last_brackets (c ∷ s) = push_unless_bracket c (drop_last_brackets s)

abbrev pub type_of : Str → SectionType
unfolding str_eq
type_of word =
    if str_eq word (codes "vars")
    then vars_section
    else if str_eq word (codes "children")
    then children_section
    else hosts_section

abbrev pub section_of : List Str → Str × SectionType
unfolding type_of
section_of [] = ([], hosts_section)
section_of (name ∷ word ∷ []) = (name, type_of word)
section_of (name ∷ _) = (name, hosts_section)

unfoldable pub get_section_data : Str → Str × SectionType
unfolding split section_of
get_section_data line = section_of (split b':' (drop_last_brackets (drop_brackets line)))

-- nameLineRegex
unfoldable pub get_child : Str → Outcome IniError Str
get_child line =
    if not (is_empty line) && all_of is_name_byte line then ok line else err unexpected_child

-- strings.SplitN(s, "=", 2), for a text that has an equals sign
unfoldable pub split_at_equals : Str → Str × Str
split_at_equals [] = ([], [])
split_at_equals (c ∷ s) =
    let rest = split_at_equals s in if c == b'=' then ([], s) else (c ∷ rest.0, rest.1)

-- a text up to the last quote, if there is one after at least one byte: '.+' without its first quote
unfoldable pub up_to_last : ℕ → Str → Option (Str × Str)
up_to_last q [] = none
up_to_last q (c ∷ s) = elim (up_to_last q s) [
  | none ↦ if c == q then some (c ∷ [], s) else none
  | some r ↦ some (c ∷ r.0, r.1)
]

abbrev pub quoted_value : ℕ → Str → Option (Str × Str)
unfolding up_to_last
quoted_value q [] = none
quoted_value q (c ∷ s) = elim (up_to_last q s) [ none ↦ none | some r ↦ some (q ∷ c ∷ r.0, r.1) ]

abbrev pub bare_value : Str → Str × Str
bare_value [] = ([], [])
bare_value (c ∷ s) =
    let rest = bare_value s in if is_blank c then ([], c ∷ s) else (c ∷ rest.0, rest.1)

abbrev pub or_bare : Str → Option (Str × Str) → Option (Str × Str)
or_bare s (some r) = some r
or_bare s none = if is_empty (bare_value s).0 then none else some (bare_value s)

-- the value that the expression takes, and what is left: the first of its three cases that fits
unfoldable pub data_value : Str → Option (Str × Str)
unfolding quoted_value
data_value [] = none
data_value (c ∷ s) = or_bare (c ∷ s) (if c == b'\'' || c == b'"' then quoted_value c s else none)

-- a run of bytes for a name, and what is left
abbrev pub name_of : Str → Str × Str
name_of [] = ([], [])
name_of (c ∷ s) =
    let rest = name_of s in if is_name_byte c then (c ∷ rest.0, rest.1) else ([], c ∷ s)

abbrev pub value_after : Str → Option (Str × Str)
unfolding data_value
value_after [] = none
value_after (c ∷ s) = if c == b'=' then data_value s else none

-- dataRegex.FindAllString: the matches from left to right. Each step passes at least one byte, so that
-- the length of the text is enough fuel.
unfoldable pub find_data : ℕ → Str → List Str
unfolding value_after
find_data zero s = []
find_data (suc n) [] = []
find_data (suc n) (c ∷ s) = elim (value_after (name_of (c ∷ s)).1) [
  | none ↦
      let rest = find_data n s in
      let past = find_data n (name_of (c ∷ s)).1 in if is_name_byte c then past else rest
  | some r ↦
      let rest = find_data n s in
      let past = find_data n r.1 in
      if is_name_byte c then ((name_of (c ∷ s)).0 ++ b'=' ∷ r.0) ∷ past else rest
]

unfoldable pub all_data : Str → List Str
unfolding find_data
all_data line = find_data (length line) line

-- where a reader of hostRegex may be
pub data HostPart : Type 0 where
  at_start in_host in_blank in_key at_value in_bare : HostPart
  opened_by filled_by : ℕ → HostPart
  after_value : HostPart

abbrev pub only_if : Bool → HostPart → List HostPart
only_if b part = if b then part ∷ [] else []

unfoldable pub read_host : ℕ → HostPart → List HostPart
read_host c at_start = only_if (is_name_byte c) in_host
read_host c in_host = only_if (is_name_byte c) in_host ++ only_if (is_blank c) in_blank
read_host c in_blank = only_if (is_blank c) in_blank ++ only_if (is_name_byte c) in_key
read_host c in_key = only_if (is_name_byte c) in_key ++ only_if (c == b'=') at_value
read_host c at_value =
    only_if (c == b'\'' || c == b'"') (opened_by c) ++ only_if (is_not_blank c) in_bare
read_host c in_bare = only_if (is_not_blank c) in_bare ++ only_if (is_blank c) in_blank
read_host c (opened_by q) = filled_by q ∷ []
read_host c (filled_by q) = filled_by q ∷ only_if (c == q) after_value
read_host c after_value = only_if (is_blank c) in_blank

abbrev pub read_all : ℕ → List HostPart → List HostPart
unfolding read_host
read_all c [] = []
read_all c (part ∷ parts) = read_host c part ++ read_all c parts

abbrev pub may_end : HostPart → Bool
may_end in_host = true
may_end in_bare = true
may_end after_value = true
may_end _ = false

unfoldable pub matches_host : List HostPart → Str → Bool
unfolding read_all
matches_host parts [] = any_of may_end parts
matches_host parts (c ∷ s) = matches_host (read_all c parts) s

abbrev pub vars_of : List Str → Vars → Vars
unfolding split_at_equals insert
vars_of [] vars = vars
vars_of (variable ∷ variables) vars =
    vars_of variables (insert (split_at_equals variable).0 (str (split_at_equals variable).1) vars)

unfoldable pub get_host_data : Str → Outcome IniError (Str × Vars)
unfolding matches_host all_data vars_of
get_host_data line =
    if matches_host (at_start ∷ []) line
    then ok ((name_of line).0, vars_of (all_data line) [])
    else err unexpected_host

unfoldable pub get_var : Str → Outcome IniError (Str × Str)
unfolding all_data split_at_equals
get_var line = if is_empty (all_data line) then err unexpected_vars else ok (split_at_equals line)
