-- ===== src/Parallel/Order.antt =====
-- utils/parallel/parallel.go: ForAll, and the order in which what its goroutines send arrives.
use gosible.Base.{
  ◌≡◌, refl, ℕ, zero, suc, ◌==◌, ltb, Bool, true, false, ◌||◌, Option, some, List, [], ◌∷◌, arith,
  if◌then◌else◌, length, get_elem?, ◌&&◌, ◌∙◌, ap, subst, leb, ◌+◌, map, sym, Bool-cases, inl, inr,
}
use gosible.Parallel.{set_at, make_errors, receive, combine_errors, results_from, for_all}
use mathlib.Core.List.{Permᴰ}

-- an arrival for the position
abbrev pub occurs {ℓ} : {E : Type ℓ} → ℕ → List (ℕ × Option E) → Bool
occurs i [] = false
occurs i ((j, e) ∷ arrivals) = (j == i) || occurs i arrivals

-- each arrival is what is sent for its position
abbrev pub AreFrom {ℓ} : {E : Type ℓ} → List (Option E) → List (ℕ × Option E) → Type ℓ
AreFrom sent [] = Unit
AreFrom sent ((j, e) ∷ arrivals) = (get_elem? sent j ≡ some e) × AreFrom sent arrivals

module _ {ℓ} {E : Type ℓ} where
  length-set_at : (i : ℕ) (e : Option E) (es : List (Option E)) → length (set_at i e es) ≡ length es
  unfolding set_at
  length-set_at i e [] = refl
  length-set_at zero e (x ∷ es) = refl
  length-set_at (suc i) e (x ∷ es) = ground (arith, length-set_at i e es)

  get_elem?-set_at :
      (i j : ℕ) (e : Option E) (es : List (Option E))
      → get_elem? (set_at i e es) j
        ≡ (if (i == j) && ltb j (length es) then some e else get_elem? es j)
  unfolding set_at
  get_elem?-set_at i j e [] = ground arith
  get_elem?-set_at zero zero e (x ∷ es) = ground arith
  get_elem?-set_at zero (suc j) e (x ∷ es) = ground arith
  get_elem?-set_at (suc i) zero e (x ∷ es) = ground arith
  get_elem?-set_at (suc i) (suc j) e (x ∷ es) = ground (arith, get_elem?-set_at i j e es)

  get_elem?-bound :
      (es : List (Option E)) (j : ℕ) {e : Option E}
      → get_elem? es j ≡ some e
      → ltb j (length es) ≡ true
  get_elem?-bound [] j h = ground (arith, h)
  get_elem?-bound (x ∷ es) zero h = ground arith
  get_elem?-bound (x ∷ es) (suc j) h = ground (arith, get_elem?-bound es j h)

  -- one arrival for position `j`, seen from position `i`
  arrival :
      (sent errors : List (Option E)) (i j : ℕ) (e : Option E) (later : Bool)
      → get_elem? sent j ≡ some e
      → length errors ≡ length sent
      → (if later then get_elem? sent i else get_elem? (set_at j e errors) i)
        ≡ (if (j == i) || later then get_elem? sent i else get_elem? errors i)
  arrival sent errors i j e true h n = ground arith
  arrival sent errors i j e false h n =
      ground (arith, get_elem?-set_at j i e errors, get_elem?-bound sent j h)

  -- what the positions have after as many receives as there are arrivals
  receive-sent :
      (sent : List (Option E)) (arrivals : List (ℕ × Option E)) (errors : List (Option E))
      → AreFrom sent arrivals
      → length errors ≡ length sent
      → (es : List (Option E)) × (receive (length arrivals) arrivals errors ≡ some es)
        × (length es ≡ length sent)
        × ((i : ℕ)
            → get_elem? es i ≡ (if occurs i arrivals then get_elem? sent i else get_elem? errors i))
  unfolding receive
  receive-sent sent [] errors a n = (errors, refl, n, λ i. refl)
  receive-sent sent ((j, e) ∷ arrivals) errors (h, a) n =
      let (es, r, l, same) =
        receive-sent sent arrivals (set_at j e errors) a (length-set_at j e errors ∙ n) in
      (es, r, l, λ i. same i ∙ arrival sent errors i j e (occurs i arrivals) h n)

  -- lists that agree at each position below their length
  elements-≡ :
      (xs ys : List (Option E))
      → length xs ≡ length ys
      → ((i : ℕ) → ltb i (length ys) ≡ true → get_elem? xs i ≡ get_elem? ys i)
      → xs ≡ ys
  elements-≡ [] [] n f = refl
  elements-≡ [] (y ∷ ys) n f = ground (arith, n)
  elements-≡ (x ∷ xs) [] n f = ground (arith, n)
  elements-≡ (x ∷ xs) (y ∷ ys) n f = ground (
    arith,
    f 0 (ground arith),
    elements-≡ xs ys (ground (arith, n)) (λ i h. f (suc i) (ground (arith, h))),
  )

  length-make_errors : (xs : List (Option E)) → length (make_errors {E = E} (length xs)) ≡ length xs
  unfolding make_errors
  length-make_errors [] = refl
  length-make_errors (x ∷ xs) = ground (arith, length-make_errors xs)

  -- If each position has an arrival, `combine_errors` gives what was sent.
  combine_errors-AreFrom :
      (sent : List (Option E)) (arrivals : List (ℕ × Option E))
      → length arrivals ≡ length sent
      → AreFrom sent arrivals
      → ((i : ℕ) → ltb i (length sent) ≡ true → occurs i arrivals ≡ true)
      → combine_errors arrivals (length sent) ≡ some sent
  unfolding combine_errors
  combine_errors-AreFrom sent arrivals count a full =
      let empty = make_errors {E = E} (length sent) in
      let (es, r, l, same) = receive-sent sent arrivals empty a (length-make_errors sent) in
      let all =
        elements-≡ es sent l (λ i h.
          same i ∙ ap (λ b. if b then get_elem? sent i else get_elem? empty i) (full i h)) in
      ap (λ n. receive n arrivals empty) (sym count) ∙ r ∙ ap some all

  occurs-perm : {a b : List (ℕ × Option E)} (i : ℕ) → Permᴰ a b → occurs i a ≡ occurs i b
  occurs-perm i Permᴰ.nil = refl
  occurs-perm i (Permᴰ.cons e p) = ground (arith, ap (λ x. x.0) e, occurs-perm i p)
  occurs-perm i (Permᴰ.swap e d) = ground (arith, ap (λ x. x.0) e, ap (λ x. x.0) d)
  occurs-perm i (Permᴰ.trans p q) = occurs-perm i p ∙ occurs-perm i q

  length-perm : {a b : List (ℕ × Option E)} → Permᴰ a b → length a ≡ length b
  length-perm Permᴰ.nil = refl
  length-perm (Permᴰ.cons _ p) = ap suc (length-perm p)
  length-perm (Permᴰ.swap _ _) = refl
  length-perm (Permᴰ.trans p q) = length-perm p ∙ length-perm q

  -- what is sent for the position
  abbrev IsSent : List (Option E) → ℕ × Option E → Type ℓ
  IsSent sent x = get_elem? sent x.0 ≡ some x.1

  AreFrom-perm :
      (sent : List (Option E)) {a b : List (ℕ × Option E)}
      → Permᴰ a b
      → AreFrom sent b
      → AreFrom sent a
  AreFrom-perm sent Permᴰ.nil h = h
  AreFrom-perm sent (Permᴰ.cons e p) (h, k) = (subst (IsSent sent) (sym e) h, AreFrom-perm sent p k)
  AreFrom-perm sent (Permᴰ.swap e d) (h, (k, l)) =
      (subst (IsSent sent) (sym e) k, (subst (IsSent sent) (sym d) h, l))
  AreFrom-perm sent (Permᴰ.trans p q) h = AreFrom-perm sent p (AreFrom-perm sent q h)

module _ {ℓ} {V E : Type ℓ} where
  length-results_from :
      (i : ℕ) (vs : List V) (f : V → Option E) → length (results_from i vs f) ≡ length vs
  unfolding results_from
  length-results_from i [] f = refl
  length-results_from i (v ∷ vs) f = ap suc (length-results_from (suc i) vs f)

  occurs-results_from :
      (i n : ℕ) (vs : List V) (f : V → Option E)
      → leb i n ≡ true
      → ltb n (i + length vs) ≡ true
      → occurs n (results_from i vs f) ≡ true
  unfolding results_from
  occurs-results_from i n [] f l h = ground (arith, l, h)
  occurs-results_from i n (v ∷ vs) f l h = elim (Bool-cases (i == n)) [
    | inl e ↦ rw e refl
    | inr e ↦ rw e (occurs-results_from (suc i) n vs f (ground (arith, l, e)) (ground (arith, h)))
  ]

  AreFrom-results_from :
      (sent : List (Option E)) (i : ℕ) (vs : List V) (f : V → Option E)
      → ((n : ℕ) → get_elem? sent (i + n) ≡ get_elem? (map f vs) n)
      → AreFrom sent (results_from i vs f)
  unfolding results_from
  AreFrom-results_from sent i [] f h = tt
  AreFrom-results_from sent i (v ∷ vs) f h = (
    ap (get_elem? sent) {x = i} {y = i + 0} (omega arith) ∙ h 0,
    AreFrom-results_from sent (suc i) vs f
        (λ n. ap (get_elem? sent) {x = suc i + n} {y = i + suc n} (omega arith) ∙ h (suc n)),
  )

  length-map : (f : V → Option E) (vs : List V) → length (map f vs) ≡ length vs
  length-map f [] = refl
  length-map f (v ∷ vs) = ap suc (length-map f vs)

  -- ForAll does not block, and gives each value's error at the value's position, in whatever order
  -- what the goroutines send arrives, if each thing that is sent arrives once and nothing else.
  pub for_all-map :
      (arrange : List (ℕ × Option E) → List (ℕ × Option E)) (vs : List V) (f : V → Option E)
      → Permᴰ (arrange (results_from 0 vs f)) (results_from 0 vs f)
      → for_all arrange vs f ≡ some (map f vs)
  unfolding for_all
  for_all-map arrange vs f p =
      let sent = results_from 0 vs f in
      ap (combine_errors (arrange sent)) (sym (length-map f vs))
      ∙ combine_errors-AreFrom (map f vs) (arrange sent)
          (length-perm p ∙ length-results_from 0 vs f ∙ sym (length-map f vs))
          (AreFrom-perm (map f vs) p (
            AreFrom-results_from (map f vs) 0 vs f
              (λ n. ap (get_elem? (map f vs)) {x = 0 + n} {y = n} (omega arith))))
          (λ i h.
            occurs-perm i p
            ∙ occurs-results_from 0 i vs f (ground arith) (
                ap (ltb i) {x = 0 + length vs} {y = length (map f vs)}
                  (omega (arith, length-map f vs))
                ∙ h))
