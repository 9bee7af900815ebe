-- ===== src/Registry/Names.antt =====
-- Under which names a registered module is found.
use gosible.Base.{
  ◌≡◌, refl, ◌∙◌, Bool, true, false, ◌||◌, some, List, [], ◌∷◌, ◌++◌, arith, any_of, if◌then◌else◌,
  not, ◌&&◌, Bool-cases, ap, inl, inr,
}
use gosible.GoText.{Str, codes, str_eq, contains_byte}
use gosible.Dict.{Dict, insert}
use gosible.Dict.Laws.{lookup-insert}
use gosible.Registry.{to_internal_fqcns, register_all, register, find}

or_last : (a b : Bool) → (a || (b || false)) ≡ (true && (a || b))
or_last a b = ground arith

any_of-to_internal_fqcns :
    (name j : Str)
    → any_of (λ n. str_eq n j) (to_internal_fqcns name) ≡ (
        str_eq name j
        || (not (contains_byte b'.' name)
            && (str_eq (codes "ansible.builtin." ++ name) j
                || str_eq (codes "ansible.legacy." ++ name) j)))
unfolding to_internal_fqcns
any_of-to_internal_fqcns name j = elim (Bool-cases (contains_byte b'.' name)) [
  | inl dot ↦ rw dot
  | inr plain ↦ rw plain (ap (◌||◌ (str_eq name j)) (or_last _ _))
]

module _ {ℓ} {M : Type ℓ} where
  find-register_all :
      (ns : List Str) (m : M) (r : Dict M) (j : Str)
      → find (register_all ns m r) j ≡ (if any_of (λ n. str_eq n j) ns then some m else find r j)
  unfolding register_all find
  find-register_all [] m r j = refl
  find-register_all (n ∷ ns) m r j =
      ground (arith, find-register_all ns m (insert n m r) j, lookup-insert n j m r)

  -- A module is found under its name and, if that has no dot, under its two qualified names too;
  -- every other name leads where it led before.
  pub find-register :
      (name : Str) (m : M) (r : Dict M) (j : Str)
      → find (register name m r) j ≡ (
          if str_eq name j
            || (not (contains_byte b'.' name)
                && (str_eq (codes "ansible.builtin." ++ name) j
                    || str_eq (codes "ansible.legacy." ++ name) j))
          then some m
          else find r j)
  unfolding register
  find-register name m r j =
      find-register_all (to_internal_fqcns name) m r j
      ∙ ap (λ b. if b then some m else find r j) (any_of-to_internal_fqcns name j)
