-- ===== src/Utilities/Callbacks.antt =====
-- utils/callbacks/callbacks.go: events and the callbacks that wait for them. What a callback does is
-- not modelled, but for being called: it does not call this package.
pub mod Once
use gosible.Base.{
  ℕ, Bool, true, false, not, Option, none, some, List, [], ◌∷◌, ◌++◌, if◌then◌else◌, ◌==◌, ◌&&◌,
}
use gosible.GoText.{Str}

pub record Callback : Type 0 where
  pub callback_name : Str
  pub registerer : Str

-- callbacksCollection
pub record Collection : Type 0 where
  pub run_once : List Callback
  pub persistent_callbacks : List Callback

-- the two maps of the package, by the event's number, and the callbacks that have been called
pub record Events : Type 0 where
  pub scheduled : ℕ → Option Collection
  pub persistent_events : ℕ → Bool
  pub called : List Callback

abbrev pub at : {A : Type 0} → ℕ → A → (ℕ → A) → ℕ → A
at k a f i = if i == k then a else f i

abbrev pub collection_of : Option Collection → Collection
collection_of none = record { run_once = []; persistent_callbacks = [] }
collection_of (some c) = c

unfoldable pub register_event : ℕ → Events → Events
register_event event s = go (s.scheduled event)
  where
    go : Option Collection → Events
    go none = s
    go (some c) = record s {
      scheduled = at event (some (record c { run_once = [] })) s.scheduled;
      called = s.called ++ (c.persistent_callbacks ++ c.run_once);
    }

unfoldable pub register_persistent_event : ℕ → Events → Events
unfolding register_event
register_persistent_event event s =
    register_event event (record s { persistent_events = at event true s.persistent_events })

abbrev pub call_if : Bool → Callback → List Callback → List Callback
call_if b callback called = if b then called ++ callback ∷ [] else called

-- the collection with a callback that is not called at once, or that is to be called again
abbrev pub with_callback : Bool → Bool → Callback → Collection → Collection
with_callback now once callback c = record {
  run_once = if not now && once then c.run_once ++ callback ∷ [] else c.run_once;
  persistent_callbacks =
      if once then c.persistent_callbacks else c.persistent_callbacks ++ callback ∷ [];
}

unfoldable pub schedule_callback : ℕ → Bool → Callback → Events → Events
schedule_callback event once callback s = record s {
  scheduled =
      at event
        (some (
          with_callback (s.persistent_events event) once callback
            (collection_of (s.scheduled event))))
        s.scheduled;
  called = call_if (s.persistent_events event) callback s.called;
}

unfoldable pub purge : Events → Events
purge s = record s { scheduled = λ i. none; persistent_events = λ i. false }
