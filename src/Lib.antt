-- ===== src/Lib.antt =====
-- gosible runs Ansible playbooks from a Go program. This library models the parts of it that decide
-- what is run, where, and with which variables, and proves what makes them correct.
--
-- How the parts interact: `playbook/parser.go` turns the values of a YAML file into plays and tasks,
-- with `playbook/module_args_resolver.go` for the action of a task, which reads its free-form text
-- by `parsing/splitter.go`. `executor/playbook_executor.go` asks `inventory/common.go` for the hosts
-- of a play, `vars/manager.go` for the variables of a host and a task, `executor/conn` for a
-- connection, and runs the task's action where `playbook/types` finds its conditions satisfied.
-- A module's Run (modules/) reads and changes the host that it runs on by commands and files, with
-- what `module_utils` and `utils` offer for that. A loop's items may come from a plugin of
-- `plugins/lookup`.
--
-- Which file models which part:
--   Base         numbers, lists and the outcome of a Go call: a value, an error or a panic
--   GoText       what the program uses of Go's `strings` and `sort`, on lists of bytes
--   Dict         Go's maps with string keys, as association lists
--   Values       `interface{}` values as YAML makes them, and `types.Vars` (utils/types)
--   Parsing      parsing/quoting.go (Quoting) and parsing/splitter.go: splitArgs and joinArgs
--                (Splitter), ParseKeyValuePairsString (KeyValue)
--   Registry     utils/fqcn/fqcn.go, modules/moduleRegistry.go
--   Inventory    inventory/data_types.go; inventory/common.go's formatAndValidate (Format) and
--                DetermineHosts (Pattern); inventory/yaml.go (Yaml); inventory/ini.go (Ini)
--   Templating   template/, which rests on an engine outside the repository: a record of functions
--   Playbook     playbook/types/data_types.go, playbook/module_args_resolver.go (Arguments) and
--                playbook/parser.go (Parser)
--   Variables    vars/utils.go; vars/manager.go's store (Manager) and GetVars (Gather)
--   Parallel     utils/parallel/parallel.go, with the order of the arrivals as a parameter
--   Utilities    utils/version/loose.go (Version), utils/slices/slices.go (Slices),
--                utils/callbacks/callbacks.go (Callbacks)
--   Executor     executor/conn/connection_manager.go (Connections), plugins/meta/meta.go (Meta),
--                executor/playbook_executor.go (World, Plays)
--   Machine      the host that a module runs on: its files and the commands it has run, over the
--                system as a record of functions; utils/path (Paths), utils/sysInfo (SystemInfo) and
--                what leaves a host as it was (Quiet)
--   ModuleUtils  module_utils/gosibleModule/mode.go (Mode)
--   Plugins      plugins/lookup (Lookup), with its sequence (Lookup/Sequence); plugins/action/setFact
--                (Actions); plugins/become and utils/shell (Become)
--   Modules      modules/group (Group), modules/hostname (Hostname) and modules/service: service.go
--                and base_service.go (Service), linux_service.go (Service/Linux); modules/waitFor
--                (WaitFor), whose system answers by all that happened before; modules/pip (Pip)
--   Tests        runs at fixed inputs
-- The modules below each of these hold its proofs.
--
-- State and errors: a `*Group` or `*Host` is the name under which it is stored, and the inventory is
-- passed along. A nil map is `none`: it can be read, and a write is a panic. The executor's calls are
-- functions on a `World`, which holds the manager, the hosts, the connections and the actions that
-- have run. Hosts that Go serves at once are served one after another, one of Go's schedules, and a
-- `range` over a map takes the order of the list, one of Go's orders.
--
-- Fuel: `GetHosts` recurses through the groups, and is given one level more than there are groups;
-- that is enough on an inventory that a loader returns, which has no chain of parents longer than
-- that. `AllVars` takes its fuel as an argument. `circularReference` has the bound of the code
-- itself. The loop of the lookup plugin sequence has a fuel too: its counter wraps at 64 bits, so
-- that Go's loop may go on for ever, and the theorems on it say which fuel is enough, as for the
-- loops of wait_for, which end by the clock.
--
-- Memory: how long a list `make` can make for a sequence is a parameter, `room`; elsewhere no list is
-- too long. White space is the ASCII one.
--
-- A module's call is a function on a `Machine`: the host's files and the list of commands that have
-- run, with a command's result a parameter; it ends in a value, an error or a panic.
--
-- Not modelled: the template engine, `lookup.Query` of the executor, the YAML library, connections
-- and the executor's run of plugins and modules, which are parameters; the modules command, shell,
-- get_url and ping; the plugin url, which calls the network; the actions debug and
-- wait_for_connection; a module's diff; most of `module_utils`, which calls the operating system;
-- configuration, of which the settings that are read are parameters; locks and output of text.
pub mod Base
pub mod GoText
pub mod Dict
pub mod Values
pub mod Parsing
pub mod Registry
pub mod Inventory
pub mod Templating
pub mod Playbook
pub mod Variables
pub mod Parallel
pub mod Plugins
pub mod Machine
pub mod Modules
pub mod ModuleUtils
pub mod Utilities
pub mod Executor
mod Tests
