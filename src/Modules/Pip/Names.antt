-- ===== src/Modules/Pip/Names.antt =====
-- modules/pip/pip.go: recoverPackageName.
use gosible.Base.{
  ℕ, Bool, true, false, not, ◌&&◌, List, [], ◌∷◌, ◌++◌, ◌≡◌, refl, sym, ap, ◌∙◌, append_assoc,
  Bool-cases, inl, inr, ◌==◌, ==_iff,
}
use gosible.GoText.{Str, codes, split, join}
use gosible.GoText.Laws.{split-cases}
use gosible.Modules.Pip.{
  recover_from, recover_package_name, split_names, in_brackets_after, is_package_name,
}

comma : Str
comma = codes ","

join-join_first :
    (y : Str) (ys zs : List Str)
    → join comma (join comma (y ∷ ys) ∷ zs) ≡ join comma (y ∷ (ys ++ zs))
unfolding join
join-join_first y [] zs = refl
join-join_first y (q ∷ ps) [] = ap (λ r. y ++ (comma ++ r)) (join-join_first q ps [])
join-join_first y (q ∷ ps) (z ∷ zs) =
    append_assoc y (comma ++ join comma (q ∷ ps)) (comma ++ join comma (z ∷ zs))
    ∙ ap (λ r. y ++ r) (append_assoc comma (join comma (q ∷ ps)) (comma ++ join comma (z ∷ zs)))
    ∙ ap (λ r. y ++ (comma ++ r)) (join-join_first q ps (z ∷ zs))

-- joining some of the parts first makes no difference
join-join :
    (xs : List Str) (y : Str) (ys zs : List Str)
    → join comma (xs ++ join comma (y ∷ ys) ∷ zs) ≡ join comma (xs ++ (y ∷ (ys ++ zs)))
unfolding join
join-join [] y ys zs = join-join_first y ys zs
join-join (x ∷ []) y ys zs = ap (λ r. x ++ (comma ++ r)) (join-join_first y ys zs)
join-join (x ∷ w ∷ xs) y ys zs = ap (λ r. x ++ (comma ++ r)) (join-join (w ∷ xs) y ys zs)

join-recover_from :
    (p : Str) (ps pkgs : List Str) (b : Bool) (names : List Str)
    → join comma (recover_from (p ∷ ps) pkgs b names) ≡ join comma (pkgs ++ (p ∷ (ps ++ names)))
unfolding recover_from comma
join-recover_from p ps pkgs b [] = join-join pkgs p ps []
join-recover_from p ps pkgs b (n ∷ names) = elim (Bool-cases (is_package_name n && not b)) [
  | inl e ↦ rw e (
      join-recover_from n [] (pkgs ++ join comma (p ∷ ps) ∷ []) (in_brackets_after b n) names
      ∙ ap (join comma) (append_assoc pkgs (join comma (p ∷ ps) ∷ []) (n ∷ names))
      ∙ join-join pkgs p ps (n ∷ names))
  | inr e ↦ rw e (
      join-recover_from p (ps ++ n ∷ []) pkgs (in_brackets_after b n) names
      ∙ ap (λ r. join comma (pkgs ++ (p ∷ r))) (append_assoc ps (n ∷ []) names))
]

join-push_first :
    (x : ℕ) (p : Str) (ps : List Str) → join comma ((x ∷ p) ∷ ps) ≡ x ∷ join comma (p ∷ ps)
unfolding join
join-push_first x p [] = refl
join-push_first x p (q ∷ ps) = refl

join-next : (p : Str) (ps : List Str) → join comma ([] ∷ p ∷ ps) ≡ b',' ∷ join comma (p ∷ ps)
unfolding join comma
join-next p ps = refl

join-split : (s : Str) → join comma (split b',' s) ≡ s
unfolding join split
join-split [] = refl
join-split (x ∷ s) =
    let (p, ps, e) = split-cases b',' s in
    let whole = ap (join comma) (sym e) ∙ join-split s in
    elim (Bool-cases (x == b',')) [
      | inl same ↦ rw same (
          rw e
            (join-next p ps ∙ ap (◌∷◌ b',') whole ∙ ap (λ c. c ∷ s) (sym ((==_iff x b',').0 same))))
      | inr other ↦ rw other (rw e (join-push_first x p ps ∙ ap (◌∷◌ x) whole))
    ]

-- the first name is split, and those after it are as they are
join-split_first :
    (n : Str) (names : List Str) → join comma (split b',' n ++ names) ≡ join comma (n ∷ names)
join-split_first n names =
    let (p, ps, e) = split-cases b',' n in
    rw e (
      sym (join-join_first p ps names)
      ∙ ap (λ r. join comma (r ∷ names)) (ap (join comma) (sym e) ∙ join-split n))

join-after :
    (n m : Str) (names : List Str)
    → join comma (split_names (m ∷ names)) ≡ join comma (m ∷ names)
    → join comma (n ∷ split_names (m ∷ names)) ≡ join comma (n ∷ m ∷ names)
unfolding join split_names
join-after n m names h =
    let (p, ps, e) = split-cases b',' m in
    rw e (ap (λ r. n ++ (comma ++ r)) (ap (λ q. join comma (q ++ split_names names)) (sym e) ∙ h))

join-split_names : (names : List Str) → join comma (split_names names) ≡ join comma names
unfolding split_names
join-split_names [] = refl
join-split_names (n ∷ []) = join-split_first n []
join-split_names (n ∷ m ∷ names) =
    join-split_first n (split_names (m ∷ names))
    ∙ join-after n m names (join-split_names (m ∷ names))

join-recovered : (names : List Str) → join comma (recover_from [] [] false names) ≡ join comma names
unfolding recover_from join
join-recovered [] = refl
join-recovered (n ∷ names) = elim (Bool-cases (is_package_name n && true)) [
  | inl e ↦ rw e (join-recover_from n [] [] (in_brackets_after false n) names)
  | inr e ↦ rw e (join-recover_from n [] [] (in_brackets_after false n) names)
]

-- The names that are recovered, joined by commas, are the given names joined by commas.
pub join-recover_package_name :
    (names : List Str) → join (codes ",") (recover_package_name names) ≡ join (codes ",") names
unfolding recover_package_name comma
join-recover_package_name names = join-recovered (split_names names) ∙ join-split_names names
