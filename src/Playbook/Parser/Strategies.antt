-- ===== src/Playbook/Parser/Strategies.antt =====
-- playbook/parser.go: the strategies of the plays that are parsed.
use gosible.Base.{
  ◌≡◌, ◌⊎◌, Bool, List, [], ◌∷◌, All, arith, ok, ◌>>=◌, >>=-eq-ok, subst, ok-injective,
}
use gosible.GoText.{Str, codes}
use gosible.GoText.Laws.{str_eq_iff}
use gosible.Values.{Vars, map}
use gosible.Playbook.{Task, Play}
use gosible.Playbook.Parser.{
  RawPlay, make_play, parse_raw_play, parse_raw_plays, strategy_of, tasks_then_vars,
  parse_raw_tasks, parse_raw_args,
}

-- `linear` or `free`
abbrev pub HasStrategy : Play → Type 0
HasStrategy p = (p.strategy_key ≡ codes "linear") ⊎ (p.strategy_key ≡ codes "free")

module _ (resolves : Str → Bool) (default : Str) where
  make_play-HasStrategy :
      (raw : RawPlay) (tasks : List Task) (vars : Vars) {p : Play}
      → make_play resolves default raw tasks vars ≡ ok p
      → HasStrategy p
  unfolding make_play
  make_play-HasStrategy raw tasks vars h =
      let s = strategy_of resolves default raw.strategy in
      ground (arith, str_eq_iff s (codes "linear"), str_eq_iff s (codes "free"))

  parse_raw_play-HasStrategy :
      (raw : RawPlay) {p : Play} → parse_raw_play resolves default raw ≡ ok p → HasStrategy p
  unfolding parse_raw_play
  parse_raw_play-HasStrategy raw h =
      let (parts, e, made) =
        >>=-eq-ok
          (tasks_then_vars resolves (parse_raw_tasks resolves raw.tasks)
            (parse_raw_args (map raw.vars)))
          (λ parts. make_play resolves default raw parts.0 parts.1) h in
      make_play-HasStrategy raw parts.0 parts.1 made

  -- Whatever the file and the default strategy, each play that is returned is linear or free.
  pub parse_raw_plays-HasStrategy :
      (raws : List RawPlay) {plays : List Play}
      → parse_raw_plays resolves default raws ≡ ok plays
      → All HasStrategy plays
  unfolding parse_raw_plays
  parse_raw_plays-HasStrategy [] h = subst (All HasStrategy) (ok-injective h) tt
  parse_raw_plays-HasStrategy (raw ∷ raws) h =
      let (play, e, rest) =
        >>=-eq-ok (parse_raw_play resolves default raw)
          (λ play. parse_raw_plays resolves default raws >>= λ plays. ok (play ∷ plays)) h in
      let (plays, more, same) =
        >>=-eq-ok (parse_raw_plays resolves default raws) (λ plays. ok (play ∷ plays)) rest in
      subst (All HasStrategy) (ok-injective same)
        (parse_raw_play-HasStrategy raw e, parse_raw_plays-HasStrategy raws more)
