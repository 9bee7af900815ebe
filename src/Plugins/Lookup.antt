-- ===== src/Plugins/Lookup.antt =====
-- plugins/lookup/: the repository of the lookup plugins, `lookup` and `query`, and the plugins. The
-- template engine's exec.Value is a `Value` or an error, and its text is an argument, `string_of`.
pub mod Sequence
pub mod Indexed
use gosible.Base.{
  ℕ, zero, suc, ◌+◌, Bool, true, false, not, Option, none, some, List, [], ◌∷◌, ◌++◌, map,
  if◌then◌else◌, is_empty, get_elem?, length, Outcome, ok, err, panic, ◌>>=◌,
}
use gosible.Base.Int.{pos}
use gosible.GoText.{Str, codes, join, trim_left, is_space, split}
use gosible.Dict.{Dict, lookup, insert, keys}
use gosible.Values.{
  Value, Vars, Items, nil, cons, str, list, int, bool, items_to_list, list_to_items,
}

pub data LookupError : Type 0 where
  wrong_signature : LookupError
  plugin_not_found : Str → LookupError
  not_a_list : Str → LookupError
  wantlist_not_bool : LookupError
  bad_pattern : Str → LookupError
  variable_not_found : Str → LookupError
  name_not_string : LookupError
  plugin_failed : LookupError

abbrev pub Answer : Type 0 → Type 0
Answer A = Outcome LookupError A

-- exec.VarArgs
pub record VarArgs : Type 0 where
  pub args : List Value
  pub kw_args : Dict Value
  pub env : Vars

abbrev pub Plugin : Type 0
Plugin = VarArgs → Answer Value

abbrev pub Plugins : Type 0
Plugins = Dict Plugin

unfoldable pub register_lookup_plugin : Str → Plugin → Plugins → Plugins
unfolding insert
register_lookup_plugin name fn plugins = insert name fn plugins

unfoldable pub find_lookup_plugin : Str → Plugins → Option Plugin
unfolding lookup
find_lookup_plugin name plugins = lookup name plugins

abbrev pub wantlist : Str
wantlist = codes "wantlist"

unfoldable pub wants_list : VarArgs → Answer Bool
unfolding lookup
wants_list va = elim (lookup wantlist va.kw_args) [
  | none ↦ ok false
  | some (bool b) ↦ ok b
  | some _ ↦ err wantlist_not_bool
]

abbrev as_list : Value → Option (List Value)
unfolding items_to_list
as_list (list vs) = some (items_to_list vs)
as_list _ = none

-- `lst...` of a list, else the value itself
unfoldable pub spread : Value → List Value
unfolding items_to_list
spread (list vs) = items_to_list vs
spread v = v ∷ []

-- plugins/lookup/items
unfoldable pub items_onto : List Value → List Value → List Value
unfolding spread
items_onto items [] = items
items_onto items (v ∷ args) = items_onto (items ++ spread v) args

unfoldable pub run_plain_items : Plugin
unfolding items_onto list_to_items
run_plain_items va = ok (list (list_to_items (items_onto [] va.args)))

-- plugins/lookup/indexed_items: the loop that writes `items[i]`
unfoldable pub index_from : ℕ → List Value → List Value
index_from i [] = []
index_from i (v ∷ items) = list (cons (int (pos i)) (cons v nil)) ∷ index_from (suc i) items

unfoldable pub run_indexed_items : Plugin
unfolding items_onto index_from list_to_items
run_indexed_items va = ok (list (list_to_items (index_from 0 (items_onto [] va.args))))

-- plugins/lookup/list
unfoldable pub run_list : Plugin
unfolding list_to_items
run_list va = ok (list (list_to_items va.args))

-- plugins/lookup/random_choice; `intn n` is a number below `n`
unfoldable pub run_random_choice : (ℕ → ℕ) → Plugin
run_random_choice intn va =
    if is_empty va.args then ok (list nil) else elim (get_elem? va.args (intn (length va.args))) [
      | none ↦ panic
      | some v ↦ ok (list (cons v nil))
    ]

-- the first of strings.Fields(strings.TrimSpace(s)), if there is one
unfoldable pub take_field : Str → Str
take_field [] = []
take_field (c ∷ s) = let rest = take_field s in if is_space c then [] else c ∷ rest

abbrev get_variable : (Str → Str) → Str → Str
get_variable getenv [] = []
get_variable getenv (c ∷ name) = getenv (c ∷ name)

-- plugins/lookup/env: the value of a variable that is not set is the empty text.
unfoldable pub run_env : (Str → Str) → Plugin
unfolding take_field list_to_items trim_left
run_env getenv va = ok (list (list_to_items (map value_of va.args)))
  where
    value_of : Value → Value
    value_of (str s) = str (get_variable getenv (take_field (trim_left s)))
    value_of _ = str []

abbrev or_default : Option Value → Option Value → Option Value
or_default none default = default
or_default (some v) default = some v

-- plugins/lookup/vars
unfoldable pub resolve_vars : Vars → Option Value → List Value → Answer (List Value)
unfolding lookup
resolve_vars env default [] = ok []
resolve_vars env default (str name ∷ args) = elim (or_default (lookup name env) default) [
  | none ↦ err (variable_not_found name)
  | some v ↦ resolve_vars env default args >>= λ vs. ok (v ∷ vs)
]
resolve_vars env default (_ ∷ args) = err name_not_string

unfoldable pub run_vars : Plugin
unfolding resolve_vars lookup list_to_items
run_vars va = resolve_vars va.env (lookup (codes "default") va.kw_args) va.args >>= λ vs.
    ok (list (list_to_items vs))

-- The names that a pattern is found in; Go visits them in any order.
abbrev matching : (Str → Bool) → List Str → List Str
matching p [] = []
matching p (k ∷ ks) = let rest = matching p ks in if p k then k ∷ rest else rest

abbrev texts : List Str → Value
unfolding list_to_items
texts names = list (list_to_items (map str names))

-- plugins/lookup/varnames; `compile` is regexp.Compile with FindStringIndex. An argument that is
-- no text gives a text, and not an error.
unfoldable pub run_varnames : (Value → Str) → (Str → Option (Str → Bool)) → Plugin
unfolding keys texts
run_varnames string_of compile va = names_of [] va.args
  where
    names_of : List Str → List Value → Answer Value
    names_of found [] = ok (texts found)
    names_of found (str pattern ∷ args) = elim (compile pattern) [
      | none ↦ err (bad_pattern pattern)
      | some matches ↦ names_of (found ++ matching matches (keys va.env)) args
    ]
    names_of found (v ∷ args) = ok (str (string_of v ++ codes ": argument must be a string"))

module _ (string_of : Value → Str) (plugins : Plugins) where
  unfoldable pub extract_name : VarArgs → Answer (Str × VarArgs)
  extract_name va = go va.args
    where
      go : List Value → Answer (Str × VarArgs)
      go [] = err wrong_signature
      go (name ∷ args) = ok (string_of name, record va { args = args })

  abbrev joined : List Value → Value
  unfolding join
  joined vs = str (join (codes ",") (map string_of vs))

  abbrev present : Str → VarArgs → Value → Answer Value
  unfolding wants_list as_list joined
  present name va result = elim (as_list result) [
    | none ↦ err (not_a_list name)
    | some vs ↦
        wants_list va >>= λ output_as_list. ok (if output_as_list then result else joined vs)
  ]

  unfoldable pub lookup_plugin : VarArgs → Answer Value
  unfolding extract_name find_lookup_plugin present
  lookup_plugin va = extract_name va >>= λ (plugin_name, va).
      elim (find_lookup_plugin plugin_name plugins) [
        | none ↦ err (plugin_not_found plugin_name)
        | some plugin ↦ plugin va >>= present plugin_name va
      ]

  unfoldable pub query_plugin : VarArgs → Answer Value
  unfolding lookup_plugin insert
  query_plugin va = lookup_plugin (record va { kw_args = insert wantlist (bool true) va.kw_args })
