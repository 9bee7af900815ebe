-- ===== src/Tests/Inventory.antt =====
-- Runs of inventory/.
use gosible.Base.{
  ◌≡◌, refl, true, false, [], ◌∷◌, ok, length, Bool-cases, ◌≤◌, map, inl, ◌≢◌, inr, ◌∙◌, sym,
}
use gosible.GoText.{Str, codes, str_eq, split}
use gosible.Dict.{keys, has, lookup, insert}
use gosible.Inventory.{Inventory, new_group, new_host, group_at, slice_contains}
use gosible.Inventory.Format.{format, validate, format_and_validate}
use gosible.Inventory.Links.{IsLinked, format-IsLinked}
use gosible.Inventory.Cycles.{up, stop, validate-ParentChain}
use gosible.Inventory.Pattern.{read_term, determine_hosts_from_groups_pattern}
use gosible.Inventory.Pattern.Selection.{Selected, determine_hosts_from_groups_pattern-Selected}

-- `all`, and `web` with one host
abbrev pub sample : Inventory
sample = record {
  hosts = (codes "h1", record (new_host (codes "h1")) { groups = codes "web" ∷ [] }) ∷ [];
  groups =
      (codes "all", record (new_group (codes "all")) { initialized = true })
      ∷ (
        codes "web",
        record (new_group (codes "web")) { hosts = codes "h1" ∷ []; initialized = true },
      )
      ∷ [];
}

childless : (g c : Str) → slice_contains (group_at sample g).children c ≡ false
unfolding group_at lookup slice_contains str_eq
childless g c = elim (Bool-cases (str_eq (codes "all") g)) [
  | inl e ↦ rw e refl
  | inr e ↦
      rw e
        (elim (Bool-cases (str_eq (codes "web") g)) [ inl e' ↦ rw e' refl | inr e' ↦ rw e' refl ])
]

parentless : (c g : Str) → slice_contains (group_at sample c).parents g ≡ false
unfolding group_at lookup slice_contains str_eq
parentless c g = elim (Bool-cases (str_eq (codes "all") c)) [
  | inl e ↦ rw e refl
  | inr e ↦
      rw e
        (elim (Bool-cases (str_eq (codes "web") c)) [ inl e' ↦ rw e' refl | inr e' ↦ rw e' refl ])
]

sample-IsLinked : IsLinked sample
sample-IsLinked = record { links = λ g c. childless g c ∙ sym (parentless c g) }

sample-valid : validate (format sample) ≡ ok tt
unfolding validate format keys lookup insert str_eq
sample-valid = refl

sample-accepted : format_and_validate sample ≡ ok (format sample)
unfolding format_and_validate
sample-accepted = rw sample-valid refl

web-known : has (codes "web") (format sample).groups ≡ true
unfolding format keys lookup has insert str_eq
web-known = refl

web-parent : slice_contains (group_at (format sample) (codes "web")).parents (codes "all") ≡ true
unfolding format keys lookup insert str_eq slice_contains
web-parent = refl

format-IsLinked_example : IsLinked (format sample)
format-IsLinked_example = format-IsLinked sample sample-IsLinked

validate-ParentChain_example : (1 ≤ length (format sample).groups) × (codes "all" ≢ codes "web")
validate-ParentChain_example =
    validate-ParentChain {d = format sample} {k = 0} {g = codes "web"} {a = codes "all"}
      sample-valid web-known (up web-parent stop)

determine_hosts_from_groups_pattern-Selected_example :
    Selected 2 sample
      (map read_term (split b':' (codes "web:!all")))
      (λ _. false)
      (determine_hosts_from_groups_pattern 2 sample (codes "web:!all"))
determine_hosts_from_groups_pattern-Selected_example =
    determine_hosts_from_groups_pattern-Selected 2 sample (codes "web:!all")
