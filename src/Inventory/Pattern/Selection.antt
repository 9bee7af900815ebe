-- ===== src/Inventory/Pattern/Selection.antt =====
-- The hosts that a pattern of groups selects, host by host.
use gosible.Base.{
  ℕ, ◌≡◌, refl, ap, ◌∙◌, Bool, true, false, not, ◌&&◌, ◌||◌, List, [], ◌∷◌, map, arith, Outcome, ok,
  err, panic, ◌>>=◌, any_of, all_of, inl, inr, Option-cases, sym, ◌⊎◌,
}
use gosible.GoText.{Str, str_eq, split}
use gosible.GoText.Laws.{str_eq_iff}
use gosible.Dict.{lookup, has, delete, merge, keys}
use gosible.Dict.Laws.{has-delete, has-merge, any_of-keys}
use gosible.Inventory.{Inventory, get_hosts}
use gosible.Inventory.Pattern.{
  Hosts, Term, exclude, intersect, include, empty, PatternError, read_term, delete_all,
  hosts_to_delete, members, step_term, step_terms, determine_hosts_from_groups_pattern, no_group,
}

-- Whether the group of a term is in the inventory.
abbrev pub known : Inventory → Term → Bool
known d (exclude g) = has g d.groups
known d (intersect g) = has g d.groups
known d (include g) = has g d.groups
known d empty = false

-- The terms from left to right, for one host: is it selected, given that it was so far?
abbrev pub selects : ℕ → Inventory → Str → List Term → Bool → Bool
selects depth d h [] so_far = so_far
selects depth d h (exclude g ∷ ts) so_far =
    selects depth d h ts (so_far && not (has h (get_hosts depth d g)))
selects depth d h (intersect g ∷ ts) so_far =
    selects depth d h ts (so_far && has h (get_hosts depth d g))
selects depth d h (include g ∷ ts) so_far =
    selects depth d h ts (has h (get_hosts depth d g) || so_far)
selects depth d h (empty ∷ ts) so_far = selects depth d h ts so_far

-- What is returned: the selected hosts if every group is known, an error if one is not.
abbrev pub Selected : ℕ → Inventory → List Term → (Str → Bool) → Outcome PatternError Hosts → Type 0
Selected depth d ts before (ok hosts) =
    (all_of (known d) ts ≡ true) × ((h : Str) → has h hosts ≡ selects depth d h ts (before h))
Selected depth d ts before (err e) = all_of (known d) ts ≡ false
Selected depth d ts before panic = ⊥

has-delete_all :
    (h : Str) (ns : List Str) (hosts : Hosts)
    → has h (delete_all ns hosts) ≡ (not (any_of (λ n. str_eq n h) ns) && has h hosts)
unfolding delete_all
has-delete_all h [] hosts = refl
has-delete_all h (n ∷ ns) hosts =
    ground (arith, has-delete_all h ns (delete n hosts), has-delete n h hosts)

any_of-hosts_to_delete :
    (h : Str) (gs hosts : Hosts)
    → any_of (λ n. str_eq n h) (hosts_to_delete gs hosts) ≡ (has h hosts && not (has h gs))
unfolding hosts_to_delete has lookup
any_of-hosts_to_delete h gs [] = refl
any_of-hosts_to_delete h gs ((n, x) ∷ hosts) =
    ground (arith, any_of-hosts_to_delete h gs hosts, str_eq_iff n h)

has-exclude :
    (h : Str) (gs hosts : Hosts)
    → has h (delete_all (keys gs) hosts) ≡ (has h hosts && not (has h gs))
has-exclude h gs hosts = ground (arith, has-delete_all h (keys gs) hosts, any_of-keys h gs)

has-intersect :
    (h : Str) (gs hosts : Hosts)
    → has h (delete_all (hosts_to_delete gs hosts) hosts) ≡ (has h hosts && has h gs)
has-intersect h gs hosts =
    ground
      (arith, has-delete_all h (hosts_to_delete gs hosts) hosts, any_of-hosts_to_delete h gs hosts)

members-cases :
    (depth : ℕ) (d : Inventory) (g : Str)
    → (members depth d g ≡ err (no_group g)) × (has g d.groups ≡ false)
      ⊎ (members depth d g ≡ ok (get_hosts depth d g)) × (has g d.groups ≡ true)
unfolding has
members-cases depth d g = elim (Option-cases (lookup g d.groups)) [
  | inl e ↦ inl (rw (e, members), rw (e, has))
  | inr (x, e) ↦ inr (rw (e, members), rw (e, has))
]

Selected-cons :
    (depth : ℕ) (d : Inventory) (t : Term) (ts : List Term) (before after : Str → Bool)
    (r : Outcome PatternError Hosts)
    → known d t ≡ true
    → ((h : Str) → selects depth d h (t ∷ ts) (before h) ≡ selects depth d h ts (after h))
    → Selected depth d ts after r
    → Selected depth d (t ∷ ts) before r
Selected-cons depth d t ts before after (ok hosts) k same rest =
    (rw k rest.0, λ h. rest.1 h ∙ sym (same h))
Selected-cons depth d t ts before after (err e) k same rest = rw k rest
Selected-cons depth d t ts before after panic k same rest = rest

-- After a term, the rest of the terms goes on from the hosts that it leaves.
Selected-step :
    (depth : ℕ) (d : Inventory) (g : Str) (t : Term) (ts : List Term) (before after : Str → Bool)
    (f : Hosts → Hosts) (next : Hosts → Outcome PatternError Hosts)
    → known d t ≡ has g d.groups
    → ((h : Str) → selects depth d h (t ∷ ts) (before h) ≡ selects depth d h ts (after h))
    → Selected depth d ts after (next (f (get_hosts depth d g)))
    → Selected depth d (t ∷ ts) before ((members depth d g >>= λ gs. ok (f gs)) >>= next)
Selected-step depth d g t ts before after f next k same rest = elim (members-cases depth d g) [
  | inl (e, missing) ↦ rw e (rw (k, missing))
  | inr (e, there) ↦ rw e (
      Selected-cons depth d t ts before after (next (f (get_hosts depth d g))) (k ∙ there) same
        rest)
]

selects-ext :
    (depth : ℕ) (d : Inventory) (h : Str) (ts : List Term) (a b : Bool)
    → a ≡ b
    → selects depth d h ts a ≡ selects depth d h ts b
selects-ext depth d h ts a b e = ap (selects depth d h ts) e

step_then-Selected :
    (depth : ℕ) (d : Inventory) (t : Term) (ts : List Term) (hosts : Hosts)
    (next : Hosts → Outcome PatternError Hosts)
    → ((hosts' : Hosts) → Selected depth d ts (λ h. has h hosts') (next hosts'))
    → Selected depth d (t ∷ ts) (λ h. has h hosts) (step_term depth d t hosts >>= next)
unfolding step_term
step_then-Selected depth d (exclude g) ts hosts next ih =
    Selected-step depth d g (exclude g) ts _ _ (λ gs. delete_all (keys gs) hosts) next refl
      (λ h. selects-ext depth d h ts _ _ (sym (has-exclude h (get_hosts depth d g) hosts))) (ih _)
step_then-Selected depth d (intersect g) ts hosts next ih =
    Selected-step depth d g (intersect g) ts _ _ (λ gs. delete_all (hosts_to_delete gs hosts) hosts)
      next refl
      (λ h. selects-ext depth d h ts _ _ (sym (has-intersect h (get_hosts depth d g) hosts))) (ih _)
step_then-Selected depth d (include g) ts hosts next ih =
    Selected-step depth d g (include g) ts _ _ (λ gs. merge hosts gs) next refl
      (λ h. selects-ext depth d h ts _ _ (sym (has-merge h hosts (get_hosts depth d g)))) (ih _)
step_then-Selected depth d empty ts hosts next ih = refl

step_terms-Selected :
    (depth : ℕ) (d : Inventory) (ts : List Str) (hosts : Hosts)
    → Selected depth d (map read_term ts) (λ h. has h hosts) (step_terms depth d ts hosts)
unfolding step_terms
step_terms-Selected depth d [] hosts = (refl, λ h. refl)
step_terms-Selected depth d (t ∷ ts) hosts =
    step_then-Selected depth d (read_term t) (map read_term ts) hosts _
      (λ hosts'. step_terms-Selected depth d ts hosts')

-- A pattern of groups is read as its terms from left to right: if the group of every term is known,
-- a host is among the result exactly if the terms select it (`!g` takes the hosts of `g` away, `&g`
-- keeps only those of `g`, and `g` adds them), and if one is not known there is an error.
pub determine_hosts_from_groups_pattern-Selected :
    (depth : ℕ) (d : Inventory) (pattern : Str)
    → Selected depth d
        (map read_term (split b':' pattern))
        (λ _. false)
        (determine_hosts_from_groups_pattern depth d pattern)
unfolding determine_hosts_from_groups_pattern
determine_hosts_from_groups_pattern-Selected depth d pattern =
    unfold has lookup in step_terms-Selected depth d (split b':' pattern) []
