-- ===== src/Inventory/Membership.antt =====
-- `GetHosts` against the relation that it computes: a host is in a group, or in a child of it.
use gosible.Base.{
  ℕ, zero, suc, ◌<◌, ◌≡◌, refl, Bool, true, false, ◌||◌, List, [], ◌∷◌, arith, any_of, Bool-cases,
  inl, inr, ◌≢◌, or_true_right, or_true,
}
use gosible.GoText.{Str}
use gosible.GoText.Laws.{str_eq_iff, str_eq_refl}
use gosible.Dict.{Dict, lookup, has, insert, merge}
use gosible.Dict.Laws.{has-insert, has-merge}
use gosible.Inventory.{
  Host, Inventory, group_at, host_at, slice_contains, own_hosts, children_hosts, get_hosts,
}

-- host `h` is in group `g`, `n` children below it
pub data InGroup (d : Inventory) (h : Str) : ℕ → Str → Type 0 where
  direct : {g : Str} → slice_contains (group_at d g).hosts h ≡ true → InGroup d h zero g
  nested :
      {n : ℕ} {g c : Str}
      → slice_contains (group_at d g).children c ≡ true
      → InGroup d h n c
      → InGroup d h (suc n) g

has-own_hosts :
    (d : Inventory) (j : Str) (hs : List Str) (hosts : Dict Host)
    → has j (own_hosts d hs hosts) ≡ (slice_contains hs j || has j hosts)
unfolding own_hosts slice_contains
has-own_hosts d j [] hosts = refl
has-own_hosts d j (h ∷ hs) hosts =
    ground (
      arith,
      has-own_hosts d j hs (insert h (host_at d h) hosts),
      has-insert h j (host_at d h) hosts,
    )

has-children_hosts :
    (get : Str → Dict Host) (j : Str) (cs : List Str) (hosts : Dict Host)
    → has j (children_hosts get cs hosts) ≡ (any_of (λ c. has j (get c)) cs || has j hosts)
unfolding children_hosts
has-children_hosts get j [] hosts = refl
has-children_hosts get j (c ∷ cs) hosts =
    ground (arith, has-children_hosts get j cs (merge hosts (get c)), has-merge j hosts (get c))

-- one level of the recursion
has-get_hosts :
    (n : ℕ) (d : Inventory) (j g : Str)
    → has j (get_hosts (suc n) d g) ≡ (
        any_of (λ c. has j (get_hosts n d c)) (group_at d g).children
        || slice_contains (group_at d g).hosts j)
unfolding get_hosts
has-get_hosts n d j g =
    let nothing : has {V = Host} j [] ≡ false = unfold has lookup in refl in
    let own = own_hosts d (group_at d g).hosts [] in
    ground (
      arith,
      has-children_hosts (get_hosts n d) j (group_at d g).children own,
      has-own_hosts d j (group_at d g).hosts [],
      nothing,
    )

-- a member passes the test
pub any_of_intro :
    (f : Str → Bool) (xs : List Str) (x : Str)
    → slice_contains xs x ≡ true
    → f x ≡ true
    → any_of f xs ≡ true
unfolding slice_contains
any_of_intro f [] x h k = cc
any_of_intro f (y ∷ ys) x h k = ground (arith, str_eq_iff y x, any_of_intro f ys x)

-- some member passes the test
pub any_of_elim :
    (f : Str → Bool) (xs : List Str)
    → any_of f xs ≡ true
    → (x : Str) × (slice_contains xs x ≡ true) × (f x ≡ true)
unfolding slice_contains
any_of_elim f [] h = cc
any_of_elim f (y ∷ ys) h = elim (Bool-cases (f y)) [
  | inl e ↦ (y, rw (str_eq_refl y), e)
  | inr e ↦ let (x, m, fx) = any_of_elim f ys (ground (arith, e)) in (x, ground (arith, m), fx)
]

-- What is found is there, at a depth that the fuel allows.
pub get_hosts-InGroup :
    (n : ℕ) (d : Inventory) (h g : Str)
    → has h (get_hosts n d g) ≡ true
    → (k : ℕ) × (k < n) × InGroup d h k g
get_hosts-InGroup zero d h g e = absurd (nothing e)
  where
    nothing : has h (get_hosts 0 d g) ≢ true
    nothing e = unfold get_hosts has lookup in cc
get_hosts-InGroup (suc n) d h g e = elim (or_true _ _ (rw (has-get_hosts n d h g) at e)) [
  | inl below ↦
      let (c, m, deeper) =
        any_of_elim (λ c. has h (get_hosts n d c)) (group_at d g).children below in
      let (k, l, i) = get_hosts-InGroup n d h c deeper in (suc k, omega arith, nested m i)
  | inr own ↦ (0, omega arith, direct own)
]

-- What is there, at a depth that the fuel allows, is found.
pub InGroup-get_hosts :
    {d : Inventory} {h : Str} {k : ℕ} {g : Str} (n : ℕ)
    → InGroup d h k g
    → k < n
    → has h (get_hosts n d g) ≡ true
InGroup-get_hosts zero i l = elim l [ ]
InGroup-get_hosts {d} {h} {g = g} (suc n) (direct e) l =
    rw (has-get_hosts n d h g, e) (or_true_right _)
InGroup-get_hosts {d} {h} {g = g} (suc n) (nested {c = c} e i) l = rw (
  has-get_hosts n d h g,
  any_of_intro (λ x. has h (get_hosts n d x)) (group_at d g).children c e
      (InGroup-get_hosts n i (omega arith)),
)
