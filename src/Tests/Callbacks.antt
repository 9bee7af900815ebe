-- ===== src/Tests/Callbacks.antt =====
-- Runs of utils/callbacks, plugins/become and plugins/action.
use gosible.Base.{true, false, none, some, List, [], ◌∷◌, ◌++◌, ◌≡◌, refl, ok, ℕ}
use gosible.GoText.{codes, str_eq, join, split}
use gosible.Values.{Value}
use gosible.Utilities.Callbacks.{Callback, Events, schedule_callback, register_persistent_event}
use gosible.Utilities.Callbacks.Once.{happens, repeated, happens-schedule_callback}
use gosible.Executor.Connections.{BecomeArgs}
use gosible.Plugins.Become.{Quoting, new_su, build_su_command, Built}
use gosible.Plugins.Actions.{facts_bucket}

abbrev always : Callback
always = record { callback_name = codes "always"; registerer = codes "config" }

abbrev one_off : Callback
one_off = record { callback_name = codes "once"; registerer = codes "vars" }

-- one persistent callback waits for event 0
abbrev events : Events
events = record {
  scheduled = λ i. some (record { run_once = []; persistent_callbacks = always ∷ [] });
  persistent_events = λ i. false;
  called = [];
}

happens-schedule_callback_example :
    (happens 3 0 (schedule_callback 0 true one_off events)).called
    ≡ [] ++ ((always ∷ []) ++ ([] ++ one_off ∷ [])) ++ repeated 2 (always ∷ [])
happens-schedule_callback_example = happens-schedule_callback 2 0 one_off events refl

-- after a lasting event a callback is called at once
called_at_once :
    (schedule_callback 0 true one_off (register_persistent_event 0 events)).called
    ≡ always ∷ one_off ∷ []
unfolding schedule_callback register_persistent_event
called_at_once = refl

abbrev plain : Quoting
plain = record {
  quote = λ s. codes "'" ++ s ++ codes "'";
  quote_command = λ ws. join (codes " ") ws;
  shell_words = λ s. ok (split b' ' s);
  translate = λ domain text. text;
}

abbrev root : BecomeArgs
root = record {
  user = codes "root";
  become = true;
  method = codes "sudo";
  flags = codes "-H";
  password = [];
}

abbrev line_of : Built → List ℕ
line_of b = b.command_line

su_line_of_ls :
    line_of (build_su_command plain (0 ∷ 1 ∷ []) (new_su root) (codes "ls") none)
    ≡ codes "su -H root -c 'ls'"
unfolding build_su_command join new_su
su_line_of_ls = refl

cacheable_facts :
    facts_bucket ((codes "cacheable", Value.bool true) ∷ []) ≡ codes "np_ansible_facts"
unfolding facts_bucket str_eq
cacheable_facts = refl
