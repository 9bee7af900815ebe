-- ===== src/Utilities/Callbacks/Once.antt =====
-- utils/callbacks/callbacks.go: how often a callback is called.
use gosible.Base.{
  ℕ, zero, suc, true, false, List, [], ◌∷◌, ◌++◌, ◌≡◌, refl, ap, ◌∙◌, append_assoc, append-nil,
  some, ◌==◌, arith, sym,
}
use gosible.Utilities.Callbacks.{
  Callback, Collection, Events, register_event, schedule_callback, collection_of, at,
}

-- the event, so many times
unfoldable pub happens : ℕ → ℕ → Events → Events
unfolding register_event
happens zero event s = s
happens (suc n) event s = happens n event (register_event event s)

abbrev pub repeated : ℕ → List Callback → List Callback
repeated zero cs = []
repeated (suc n) cs = cs ++ repeated n cs

same_event : (event : ℕ) → (event == event) ≡ true
same_event event = ground arith

regroup : (a b p r : List Callback) → (a ++ b) ++ (p ++ []) ++ r ≡ a ++ b ++ (p ++ r)
regroup a b p r = rw (append-nil p) (append_assoc (a ++ b) p r)

-- the state after the event
abbrev after_event : ℕ → Collection → Events → Events
after_event event c s = record s {
  scheduled = at event (some (record c { run_once = [] })) s.scheduled;
  called = s.called ++ (c.persistent_callbacks ++ c.run_once);
}

register_event_scheduled :
    (event : ℕ) (s : Events) (c : Collection)
    → s.scheduled event ≡ some c
    → register_event event s ≡ after_event event c s
unfolding register_event
register_event_scheduled event s c h = rw h refl

-- The first event calls all of the collection, and each later one its persistent callbacks.
called-happens :
    (n event : ℕ) (s : Events) (c : Collection)
    → s.scheduled event ≡ some c
    → (happens (suc n) event s).called
      ≡ s.called ++ (c.persistent_callbacks ++ c.run_once) ++ repeated n c.persistent_callbacks
unfolding happens
called-happens zero event s c h =
    ap (λ t. t.called) (register_event_scheduled event s c h)
    ∙ sym (append-nil (s.called ++ (c.persistent_callbacks ++ c.run_once)))
called-happens (suc n) event s c h =
    ap (λ t. (happens (suc n) event t).called) (register_event_scheduled event s c h)
    ∙ called-happens n event (after_event event c s) (record c { run_once = [] })
        (rw (same_event event) refl)
    ∙ regroup s.called (c.persistent_callbacks ++ c.run_once) c.persistent_callbacks
        (repeated n c.persistent_callbacks)

-- a collection with one more callback to run once, and the state that has it
abbrev waiting : Callback → Collection → Collection
waiting callback c = record c { run_once = c.run_once ++ callback ∷ [] }

abbrev with_waiting : ℕ → Callback → Events → Events
with_waiting event callback s = record s {
  scheduled = at event (some (waiting callback (collection_of (s.scheduled event)))) s.scheduled;
}

schedule_callback_waiting :
    (event : ℕ) (callback : Callback) (s : Events)
    → s.persistent_events event ≡ false
    → schedule_callback event true callback s ≡ with_waiting event callback s
unfolding schedule_callback
schedule_callback_waiting event callback s h = rw h refl

-- A callback to be run once, for an event that has not been marked as lasting, is called by the next
-- event, after the persistent ones and those that wait already, and by no event after it.
pub happens-schedule_callback :
    (n event : ℕ) (callback : Callback) (s : Events)
    → s.persistent_events event ≡ false
    → (happens (suc n) event (schedule_callback event true callback s)).called
      ≡ s.called
        ++ ((collection_of (s.scheduled event)).persistent_callbacks
            ++ ((collection_of (s.scheduled event)).run_once ++ callback ∷ []))
        ++ repeated n (collection_of (s.scheduled event)).persistent_callbacks
happens-schedule_callback n event callback s h =
    ap (λ t. (happens (suc n) event t).called) (schedule_callback_waiting event callback s h)
    ∙ called-happens n event (with_waiting event callback s)
        (waiting callback (collection_of (s.scheduled event))) (rw (same_event event) refl)
