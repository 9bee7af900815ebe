-- ===== src/Machine/Quiet.antt =====
-- Calls that leave the host as it is, and what their values satisfy.
use gosible.Base.{
  inl, inr, Option-cases, ◌≡◌, refl, Bool, true, false, List, [], ◌∷◌, ◌++◌, Outcome, ok, err,
  panic, if◌then◌else◌,
}
use gosible.GoText.{Str}
use gosible.Dict.{lookup}
use gosible.Machine.{
  System, Machine, HostState, Node, Fault, Return, Io, continue, ◌>>=◌, pure, fail, lift, attempt,
  stat, update_return, is_not_exist, reified, or_failed, marked, mark_return_failed, get_return,
}
use gosible.Machine.Paths.{
  exists, existing_dirs, get_paths, is_executable, search_paths, get_bin_path, join_path, found,
  exists_from, is_exec_node, searched_dirs,
}

abbrev pub Holds : {A : Type 0} → (A → Type 0) → Outcome Fault A → Type 0
Holds P (ok a) = P a
Holds P (err e) = Unit
Holds P panic = Unit

-- On the host `h` the call leaves it as it is, and a value that it returns satisfies `P`.
abbrev pub Gives : {A : Type 0} → HostState → (A → Type 0) → Io A → Type 0
Gives h P m = (w : Machine) → w.host ≡ h → ((m w).0.host ≡ h) × Holds P (m w).1

-- any value
abbrev pub Any : {A : Type 0} → A → Type 0
Any a = Unit

module _ {A B : Type 0} (h : HostState) where
  continue-Gives :
      (P : A → Type 0) (Q : B → Type 0) (r : Machine × Outcome Fault A) (f : A → Io B)
      → (r.0.host ≡ h) × Holds P r.1
      → ((a : A) → P a → Gives h Q (f a))
      → ((continue r f).0.host ≡ h) × Holds Q (continue r f).1
  continue-Gives P Q (w, ok a) f g k = k a g.1 w g.0
  continue-Gives P Q (w, err e) f g k = (g.0, tt)
  continue-Gives P Q (w, panic) f g k = (g.0, tt)

  pub bind-Gives :
      (P : A → Type 0) (Q : B → Type 0) (m : Io A) (f : A → Io B)
      → Gives h P m
      → ((a : A) → P a → Gives h Q (f a))
      → Gives h Q (m >>= f)
  bind-Gives P Q m f g k w e = continue-Gives P Q (m w) f (g w e) k

module _ {A : Type 0} (h : HostState) (P : A → Type 0) where
  pub pure-Gives : (a : A) → P a → Gives h P (pure a)
  pure-Gives a p w e = (e, p)

  pub fail-Gives : (x : Fault) → Gives h P (fail x)
  fail-Gives x w e = (e, tt)

  pub lift-Gives : (r : Outcome Fault A) → Holds P r → Gives h P (lift r)
  lift-Gives r p w e = (e, p)

  pub if-Gives :
      (b : Bool) (m n : Io A)
      → (b ≡ true → Gives h P m)
      → (b ≡ false → Gives h P n)
      → Gives h P (if b then m else n)
  if-Gives true m n p q = p refl
  if-Gives false m n p q = q refl

module _ {A : Type 0} (h : HostState) where
  reified-Gives :
      (r : Machine × Outcome Fault A)
      → r.0.host ≡ h
      → ((reified r).0.host ≡ h) × Holds Any (reified r).1
  reified-Gives (w, ok a) e = (e, tt)
  reified-Gives (w, err x) e = (e, tt)
  reified-Gives (w, panic) e = (e, tt)

  pub attempt-Gives : (m : Io A) → Gives h Any m → Gives h Any (attempt m)
  attempt-Gives m g w e = reified-Gives (m w) (g w e).0

  Holds-Any : (r : Outcome Fault A) → Holds Any r
  Holds-Any (ok a) = tt
  Holds-Any (err e) = tt
  Holds-Any panic = tt

  pub lift-Any : (r : Outcome Fault A) → Gives h Any (lift r)
  lift-Any r = lift-Gives h Any r (Holds-Any r)

module _ (h : HostState) (sys : System) where
  stat-Gives : (path : Str) → Gives h Any (stat sys path)
  unfolding stat
  stat-Gives path w e = elim (Option-cases (lookup path w.host.files)) [
    | inl o ↦ rw (stat, o) (e, tt)
    | inr (n, o) ↦ rw (stat, o) (e, tt)
  ]

  exists_from-Gives : (r : Outcome Fault Node) → Gives h Any (exists_from sys r)
  exists_from-Gives (ok n) = pure-Gives h Any true tt
  exists_from-Gives (err e) =
      if-Gives h Any (is_not_exist e) (pure false) (fail e) (λ _. pure-Gives h Any false tt)
        (λ _. fail-Gives {A = Bool} h Any e)
  exists_from-Gives panic = lift-Any {A = Bool} h panic

  pub exists-Gives : (path : Str) → Gives h Any (exists sys path)
  unfolding exists
  exists-Gives path =
      bind-Gives h Any Any (attempt (stat sys path)) (exists_from sys)
        (attempt-Gives h (stat sys path) (stat-Gives path)) (λ r _. exists_from-Gives r)

  existing_dirs-Gives : (dirs : List Str) → Gives h Any (existing_dirs sys dirs)
  unfolding existing_dirs
  existing_dirs-Gives [] = λ w e. (e, tt)
  existing_dirs-Gives (dir ∷ dirs) =
      bind-Gives h Any Any (exists sys dir) _ (exists-Gives dir) (λ found _.
        bind-Gives h Any Any (existing_dirs sys dirs) _ (existing_dirs-Gives dirs)
          (λ rest _ w e. (e, tt)))

  is_executable-Gives : (path : Str) → Gives h Any (is_executable sys path)
  unfolding is_executable
  is_executable-Gives path =
      bind-Gives h Any Any (stat sys path) _ (stat-Gives path)
        (λ n _. pure-Gives {A = Bool} h Any (is_exec_node n) tt)

  found-Gives :
      (path : Str) (next : Io Str) (r : Outcome Fault Bool)
      → Gives h Any next
      → Gives h Any (found sys path next r)
  found-Gives path next (ok true) g = pure-Gives h Any path tt
  found-Gives path next (ok false) g = g
  found-Gives path next (err e) g =
      if-Gives h Any _ next (fail e) (λ _. g) (λ _. fail-Gives {A = Str} h Any e)
  found-Gives path next panic g = lift-Any {A = Str} h panic

  search_paths-Gives :
      (name : Str) (needed : Bool) (dirs : List Str)
      → Gives h Any (search_paths sys name needed dirs)
  unfolding search_paths
  search_paths-Gives name needed [] =
      if-Gives h Any needed (fail _) (pure []) (λ _ w e. (e, tt)) (λ _ w e. (e, tt))
  search_paths-Gives name needed (dir ∷ dirs) =
      bind-Gives h Any Any (attempt (is_executable sys (join_path sys dir name))) _
        (attempt-Gives h _ (is_executable-Gives (join_path sys dir name)))
        (λ r _. found-Gives _ _ r (search_paths-Gives name needed dirs))

  get_paths-Gives : (dirs : List Str) → Gives h Any (get_paths sys dirs)
  unfolding get_paths
  get_paths-Gives dirs =
      bind-Gives {B = List Str} h Any Any (existing_dirs sys (searched_dirs sys dirs))
        (λ found. pure (sys.path_env ++ found)) (existing_dirs-Gives (searched_dirs sys dirs))
        (λ found _ w e. (e, tt))

  -- Looking for an executable changes nothing.
  pub get_bin_path-Gives :
      (name : Str) (dirs : List Str) (needed : Bool)
      → Gives h Any (get_bin_path sys name dirs needed)
  unfolding get_bin_path
  get_bin_path-Gives name dirs needed =
      bind-Gives h Any Any (get_paths sys dirs) (search_paths sys name needed)
        (get_paths-Gives dirs) (λ paths _. search_paths-Gives name needed paths)

  pub update_return-Gives : (r : Return) → Gives h Any (update_return sys r)
  unfolding update_return
  update_return-Gives r w e = (e, tt)

module _ (h : HostState) where
  pub or_failed-Gives : (body : Io Return) → Gives h Any body → Gives h Any (or_failed body)
  unfolding or_failed mark_return_failed
  or_failed-Gives body g =
      bind-Gives h Any Any (attempt body) _ (attempt-Gives h body g) (λ r _. go r)
    where
      go : (r : Outcome Fault Return) → Gives h Any (marked r)
      go (ok ret) w e = (e, tt)
      go (err x) w e = (e, tt)
      go panic w e = (e, tt)

  pub get_return-Gives : Gives h Any get_return
  get_return-Gives w e = (e, tt)
