-- ===== src/Modules/WaitFor/Keeping.antt =====
-- What a stretch of modules/waitFor/wait_for.go keeps true of the events, composed step by step.
use gosible.Base.{◌∷◌, Option, none, some, Outcome, ok, err, panic}
use gosible.Modules.WaitFor.{Event, Trace, Wait, ◌>>=◌, continue_wait, perform, give, Fault}
use gosible.Modules.WaitFor.Waiting.{Looping, then_wait, then_loop}

module _ (P : Trace → Type 0) where
  abbrev pub Keeps : {A : Type 0} → Wait A → Type 0
  Keeps m = (es : Trace) → P es → P (m es).0

  -- there is a result, and it keeps what held
  abbrev pub Ends : {A : Type 0} → Option (Trace × Outcome Fault A) → Type 0
  Ends none = ⊥
  Ends (some r) = P r.0

  module _ {A : Type 0} where
    pub give-Keeps : (r : Outcome Fault A) → Keeps (give r)
    give-Keeps r es h = h

    module _ {B : Type 0} (f : A → Wait B) (k : (a : A) → Keeps (f a)) where
      pub continue_wait-Keeps : (r : Trace × Outcome Fault A) → P r.0 → P (continue_wait r f).0
      continue_wait-Keeps (es, ok a) h = k a es h
      continue_wait-Keeps (es, err e) h = h
      continue_wait-Keeps (es, panic) h = h

      pub bind-Keeps : (m : Wait A) → Keeps m → Keeps (m >>= f)
      bind-Keeps m l es h = continue_wait-Keeps (m es) (l es h)

      pub then_wait-Ends : (o : Option (Trace × Outcome Fault A)) → Ends o → Ends (then_wait o f)
      then_wait-Ends none h = h
      then_wait-Ends (some r) h = continue_wait-Keeps r h

    pub then_loop-Ends :
        {B : Type 0} (f : A → Looping B)
        → ((a : A) (es : Trace) → P es → Ends (f a es))
        → (r : Trace × Outcome Fault A) → P r.0
        → Ends (then_loop r f)
    then_loop-Ends f k (es, ok a) h = k a es h
    then_loop-Ends f k (es, err e) h = h
    then_loop-Ends f k (es, panic) h = h

  -- where every event keeps it
  module _ (every : (e : Event) (es : Trace) → P es → P (e ∷ es)) where
    pub perform-Keeps :
        {A : Type 0} (e : Event) (answer : Trace → Outcome Fault A) → Keeps (perform e answer)
    perform-Keeps e answer es h = every e es h
