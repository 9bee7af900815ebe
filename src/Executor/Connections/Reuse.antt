-- ===== src/Executor/Connections/Reuse.antt =====
-- executor/conn/connection_manager.go: the connections that tasks are given one after another.
use gosible.Base.{
  ◌≡◌, refl, ℕ, Bool, true, false, Option, none, some, arith, ok, ok-injective, subst, ◌∙◌, ap, [],
  Bool-cases, inl, inr, sym,
}
use gosible.GoText.{Str}
use gosible.Dict.{lookup, insert}
use gosible.Dict.Laws.{lookup-insert_self}
use gosible.Values.{Vars}
use gosible.Playbook.{Task}
use gosible.Executor.Connections.{
  ConnManager, BecomeArgs, BecomeDefaults, Create, get_become_args, get_become_conn,
  get_default_conn, get_conn_for_task, update_opts, GetConn, keep_become, bool_or, keep_default,
  codes, no_become, string_or,
}

-- the connection that is stored for a user, or with no become
abbrev stored : Bool → Str → ConnManager → Option ℕ
stored true user cm = lookup user cm.become_conns
stored false user cm = cm.default_conn

-- what is stored in the manager that is returned
carried :
    (f : ConnManager → Option ℕ) (cm cm' : ConnManager) (d c : ℕ)
    → ◌≡◌ {A = GetConn} (cm, ok d) (cm', ok c)
    → f cm ≡ some d
    → f cm' ≡ some c
carried f cm cm' d c h e =
    subst (λ (r : GetConn). f r.0 ≡ some c) h
      (e ∙ ap some (ok-injective (ap (λ (r : GetConn). r.1) h)))

module _ (create : Create) (cm cm' : ConnManager) (c : ℕ) where
  become_conn-stored :
      (args : BecomeArgs)
      → get_become_conn create args cm ≡ (cm', ok c)
      → stored true args.user cm' ≡ some c
  unfolding get_become_conn
  become_conn-stored args h = go (lookup args.user cm.become_conns) refl h
    where
      keep :
          (x : Option ℕ)
          → ◌≡◌ {A = GetConn} (keep_become args.user cm x) (cm', ok c)
          → stored true args.user cm' ≡ some c
      keep none h = absurd (ground (arith, h))
      keep (some d) h =
          carried (stored true args.user)
            (record cm { become_conns = insert args.user d cm.become_conns }) cm' d c h
            (lookup-insert_self args.user d cm.become_conns)

      go :
          (x : Option ℕ)
          → stored true args.user cm ≡ x
          → ◌≡◌ {A = GetConn}
              (elim x [
                | some c ↦ (cm, ok c)
                | none ↦ keep_become args.user cm (create cm.host cm.vars args)
              ])
              (cm', ok c)
          → stored true args.user cm' ≡ some c
      go none e h = keep (create cm.host cm.vars args) h
      go (some d) e h = carried (stored true args.user) cm cm' d c h e

  default_conn-stored : get_default_conn create cm ≡ (cm', ok c) → stored false [] cm' ≡ some c
  unfolding get_default_conn
  default_conn-stored h = go cm.default_conn refl h
    where
      keep :
          (x : Option ℕ)
          → ◌≡◌ {A = GetConn} (keep_default cm x) (cm', ok c)
          → stored false [] cm' ≡ some c
      keep none h = absurd (ground (arith, h))
      keep (some d) h =
          carried (stored false []) (record cm { default_conn = some d }) cm' d c h refl

      go :
          (x : Option ℕ)
          → stored false [] cm ≡ x
          → ◌≡◌ {A = GetConn}
              (elim x [
                | some c ↦ (cm, ok c)
                | none ↦ keep_default cm (create cm.host cm.vars no_become)
              ])
              (cm', ok c)
          → stored false [] cm' ≡ some c
      go none e h = keep (create cm.host cm.vars no_become) h
      go (some d) e h = carried (stored false []) cm cm' d c h e

stored-become_conn :
    (create : Create) (args : BecomeArgs) (cm : ConnManager) (c : ℕ)
    → stored true args.user cm ≡ some c
    → get_become_conn create args cm ≡ (cm, ok c)
unfolding get_become_conn
stored-become_conn create args cm c e = go (lookup args.user cm.become_conns) e
  where
    go :
        (x : Option ℕ)
        → x ≡ some c
        → ◌≡◌ {A = GetConn}
            (elim x [
              | some c ↦ (cm, ok c)
              | none ↦ keep_become args.user cm (create cm.host cm.vars args)
            ])
            (cm, ok c)
    go x e = rw e refl

stored-default_conn :
    (create : Create) (cm : ConnManager) (c : ℕ)
    → stored false [] cm ≡ some c
    → get_default_conn create cm ≡ (cm, ok c)
unfolding get_default_conn
stored-default_conn create cm c e = rw e refl

stored-update_opts :
    (b : Bool) (user : Str) (vars : Vars) (cm : ConnManager)
    → stored b user (update_opts vars cm) ≡ stored b user cm
unfolding update_opts
stored-update_opts true user vars cm = refl
stored-update_opts false user vars cm = refl

-- whether a task becomes a user, and which: the rest of the arguments is not looked at
abbrev pub becomes : BecomeDefaults → Task → Bool × Str
becomes s task = (
  bool_or task.keywords (codes "become") false,
  string_or task.keywords (codes "become_user") s.default_become_user,
)

args-becomes :
    (s : BecomeDefaults) (task : Task) (cm : ConnManager)
    → ((get_become_args s task cm).become, (get_become_args s task cm).user) ≡ becomes s task
unfolding get_become_args
args-becomes s task cm = refl

conn-become :
    (s : BecomeDefaults) (create : Create) (task : Task) (cm : ConnManager)
    → (becomes s task).0 ≡ true
    → get_conn_for_task s create task cm ≡ get_become_conn create (get_become_args s task cm) cm
unfolding get_conn_for_task
conn-become s create task cm e = rw (ap (λ (b : Bool × Str). b.0) (args-becomes s task cm) ∙ e) refl

conn-default :
    (s : BecomeDefaults) (create : Create) (task : Task) (cm : ConnManager)
    → (becomes s task).0 ≡ false
    → get_conn_for_task s create task cm ≡ get_default_conn create cm
unfolding get_conn_for_task
conn-default s create task cm e =
    rw (ap (λ (b : Bool × Str). b.0) (args-becomes s task cm) ∙ e) refl

-- A connection that a task is given is given to the next task that becomes the same user, or that
-- becomes none as the first did, with no new connection and whatever its other arguments and the
-- variables are.
pub get_conn_for_task-reuse :
    (s : BecomeDefaults) (create create' : Create) (task task' : Task) (vars : Vars)
    (cm cm' : ConnManager) (c : ℕ)
    → becomes s task ≡ becomes s task'
    → get_conn_for_task s create task cm ≡ (cm', ok c)
    → get_conn_for_task s create' task' (update_opts vars cm') ≡ (update_opts vars cm', ok c)
get_conn_for_task-reuse s create create' task task' vars cm cm' c same h =
    elim (Bool-cases (becomes s task).0) [
      | inl e ↦
          let args = get_become_args s task cm in
          let args' = get_become_args s task' (update_opts vars cm') in
          let user =
            ap (λ (b : Bool × Str). b.1)
              (args-becomes s task cm ∙ same ∙ sym (args-becomes s task' (update_opts vars cm'))) in
          conn-become s create' task' (update_opts vars cm')
            (sym (ap (λ (b : Bool × Str). b.0) same) ∙ e)
          ∙ stored-become_conn create' args' (update_opts vars cm') c (
              stored-update_opts true args'.user vars cm'
              ∙ subst (λ u. stored true u cm' ≡ some c) user
                  (become_conn-stored create cm cm' c args
                    (sym (conn-become s create task cm e) ∙ h)))
      | inr e ↦
          conn-default s create' task' (update_opts vars cm')
            (sym (ap (λ (b : Bool × Str). b.0) same) ∙ e)
          ∙ stored-default_conn create' (update_opts vars cm') c (
              stored-update_opts false [] vars cm'
              ∙ default_conn-stored create cm cm' c (sym (conn-default s create task cm e) ∙ h))
    ]
