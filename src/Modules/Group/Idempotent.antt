-- ===== src/Modules/Group/Idempotent.antt =====
-- modules/group/group.go: Run for a group that is there already.
use gosible.Base.{
  ◌≡◌, refl, ap, true, false, List, [], ◌∷◌, Option, none, some, ok, ◌∙◌, Option-cases, inl, inr,
}
use gosible.Base.Int.{ℤ}
use gosible.GoText.{Str, codes, str_eq}
use gosible.GoText.Numbers.{decimal}
use gosible.Machine.{
  System, Machine, HostState, GroupEntry, RunResult, pure, lift, ◌>>=◌, update_return, get_return,
}
use gosible.Machine.Quiet.{
  Gives, Any, bind-Gives, lift-Any, get_bin_path-Gives, update_return-Gives, or_failed-Gives,
  get_return-Gives,
}
use gosible.Modules.Group.{
  GroupParams, validate_group_params, group_exists, group_exists_in_system, group_info, group_mod,
  add_mod_options, gid_options, run_group, run_group_body, apply_state,
  get_local_or_system_command_path, report_info, report_gid, modify, check_rc_of_group, report,
  parse_int, first_return, report_all, report_result, act,
}

-- The module is to look in the system, and to have the group, whose id is to be `gid` if there is one.
pub record IsWanted (sys : System) (p : GroupParams) (h : HostState) : Type 0 where
  pub in_system : p.is_local ≡ false
  pub wants_present : str_eq p.state (codes "absent") ≡ false
  pub entry : GroupEntry
  pub listed : sys.lookup_group h p.name ≡ ok (some entry)
  pub same_gid : (gid : ℤ) → p.gid ≡ some gid → str_eq entry.gid (decimal gid) ≡ true

module _ (sys : System) (p : GroupParams) (h : HostState) (wanted : IsWanted sys p h) where
  group_exists-Gives : Gives h (λ b. b ≡ true) (group_exists sys p)
  unfolding group_exists group_exists_in_system
  group_exists-Gives w e = rw wanted.in_system (rw e (rw wanted.listed (e, refl)))

  group_info-Gives : Gives h (λ i. i ≡ some wanted.entry) (group_info sys p)
  unfolding group_info
  group_info-Gives =
      bind-Gives h (λ b. b ≡ true) _ (group_exists sys p) _ group_exists-Gives
        (λ b t w e. rw t (rw e (rw wanted.listed (e, refl))))

  no_options : (gid : ℤ) → p.gid ≡ some gid → gid_options sys p gid (some wanted.entry) ≡ []
  unfolding gid_options
  no_options gid e = rw (wanted.same_gid gid e) refl

  add_mod_options-Gives : Gives h (λ o. o ≡ []) (add_mod_options sys p p.gid)
  unfolding add_mod_options
  add_mod_options-Gives = elim (Option-cases p.gid) [
    | inl n ↦ rw n nothing
    | inr (gid, s) ↦ rw s (something gid s)
  ]
    where
      nothing : Gives h (λ o. o ≡ []) (add_mod_options sys p none)
      nothing w e = (e, refl)

      something :
          (gid : ℤ) → p.gid ≡ some gid → Gives h (λ o. o ≡ []) (add_mod_options sys p (some gid))
      something gid s =
          bind-Gives h (λ i. i ≡ some wanted.entry) (λ o. o ≡ []) (group_info sys p)
            (λ info. pure (gid_options sys p gid info)) group_info-Gives
            (λ info i w e. (e, ap (gid_options sys p gid) i ∙ no_options gid s))

  path-Gives : (a b : Str) → Gives h Any (get_local_or_system_command_path sys p a b)
  unfolding get_local_or_system_command_path
  path-Gives a b = rw wanted.in_system (get_bin_path-Gives h sys a [] true)

  modify-Gives :
      (path : Str) (options : List Str)
      → options ≡ []
      → Gives h (λ r. r ≡ none) (modify sys p path options)
  unfolding modify
  modify-Gives path [] o = λ w e. (e, refl)
  modify-Gives path (x ∷ options) o = cc

  group_mod-Gives : Gives h (λ r. r ≡ none) (group_mod sys p)
  unfolding group_mod
  group_mod-Gives =
      bind-Gives h Any (λ r. r ≡ none) (get_local_or_system_command_path sys p _ _) _
        (path-Gives _ _)
        (λ path _.
          bind-Gives h (λ o. o ≡ []) (λ r. r ≡ none) (add_mod_options sys p p.gid)
            (modify sys p path) add_mod_options-Gives (modify-Gives path))

  apply_state-Gives : Gives h (λ r. r ≡ none) (apply_state sys p)
  unfolding apply_state
  apply_state-Gives = rw wanted.wants_present (
      bind-Gives h (λ b. b ≡ true) (λ r. r ≡ none) (group_exists sys p) _ group_exists-Gives
        (λ b t. rw t (
          bind-Gives h (λ r. r ≡ none) (λ r. r ≡ none) (group_mod sys p) (check_rc_of_group sys p)
            group_mod-Gives (λ r n w e. rw n (e, refl)))))

  report_gid-Gives : (gid : Option ℤ) → Gives h Any (report_gid sys p gid)
  unfolding report_gid update_return
  report_gid-Gives none = λ w e. (e, tt)
  report_gid-Gives (some gid) = λ w e. (e, tt)

  report_info-Gives : (i : Option GroupEntry) → Gives h Any (report_info sys p i)
  unfolding report_info
  report_info-Gives none = λ w e. (e, tt)
  report_info-Gives (some i) = report_gid-Gives (parse_int i.gid)

  report-Gives : (r : Option RunResult) → r ≡ none → Gives h Any (report sys p r)
  unfolding report
  report-Gives r n = rw n λ w e. (e, tt)

  report_all-Gives : (i : Option GroupEntry) → Gives h Any (report_all sys p i)
  unfolding report_all
  report_all-Gives i =
      bind-Gives h Any Any (report_info sys p i) (λ _. get_return) (report_info-Gives i)
        (λ _ _. get_return-Gives h)

  report_result-Gives : (r : Option RunResult) → r ≡ none → Gives h Any (report_result sys p r)
  unfolding report_result
  report_result-Gives r n =
      bind-Gives h Any Any (report sys p r) (λ _. group_info sys p >>= report_all sys p)
        (report-Gives r n)
        (λ _ _.
          bind-Gives h (λ i. i ≡ some wanted.entry) Any (group_info sys p) (report_all sys p)
            group_info-Gives (λ i _. report_all-Gives i))

  act-Gives : Gives h Any (act sys p)
  unfolding act
  act-Gives =
      bind-Gives h Any Any (update_return sys (first_return sys p))
        (λ _. apply_state sys p >>= report_result sys p)
        (update_return-Gives h sys (first_return sys p))
        (λ _ _.
          bind-Gives h (λ r. r ≡ none) Any (apply_state sys p) (report_result sys p)
            apply_state-Gives report_result-Gives)

  body-Gives : Gives h Any (run_group_body sys p)
  unfolding run_group_body
  body-Gives =
      bind-Gives h Any Any (lift (validate_group_params p)) (λ _. act sys p)
        (lift-Any h (validate_group_params p)) (λ _ _. act-Gives)

-- If the state that is asked for is not `absent`, `local` is off, and the system has the group, with
-- the id that is asked for if one is, the module runs no command and writes no file.
pub run_group_idempotent :
    (sys : System) (p : GroupParams) (w : Machine)
    → IsWanted sys p w.host
    → (run_group sys p w).0.host ≡ w.host
unfolding run_group
run_group_idempotent sys p w wanted =
    (or_failed-Gives w.host (run_group_body sys p) (body-Gives sys p w.host wanted) w refl).0
