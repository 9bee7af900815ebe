-- ===== src/Machine.antt =====
-- The machine that a module runs on, and the module's return value. Its files are a map of paths.
-- What a command answers is up to the machine: a function of its state and of the commands before.
pub mod Paths
pub mod Quiet
pub mod SystemInfo
use gosible.Base.{
  ℕ, Bool, true, false, Option, none, some, List, [], ◌∷◌, ◌++◌, ◌==◌, if◌then◌else◌, is_empty,
  Outcome, ok, err, panic, ◌&&◌,
}
use gosible.Base.Int.{ℤ, pos, eq_ℤ}
use gosible.GoText.{Str, codes}
use gosible.Dict.{Dict, lookup, insert}
use gosible.Values.{Value, Vars}

-- an `error`: os.ErrNotExist, os.ErrPermission, a text, or one that wraps another
pub data Fault : Type 0 where
  not_exist : Fault
  denied : Fault
  failure : Str → Fault
  wrapped : Str → Fault → Fault

-- `RunCommand`'s arguments, with the keyword arguments that the modules set
pub record Command : Type 0 where
  pub argv : List Str
  pub unsafe_shell : Bool
  pub environ : Dict Str
  pub path_prefix : Str
  pub cwd : Str
  pub stdin : Str

-- RunCommandResult
pub record RunResult : Type 0 where
  pub rc : ℤ
  pub stdout : Str
  pub stderr : Str

-- `special` is a device, a socket or a pipe that no one may execute, with what a read of it gives; a
-- write to it leaves it as it is
pub data Node : Type 0 where
  regular : Str → Node
  executable : Node
  directory : Node
  special : Str → Node

-- modules.Return, as far as the modules set it
pub record Return : Type 0 where
  pub changed : Bool
  pub failed : Bool
  pub stdout : Str
  pub stderr : Str
  pub specific : Value
  pub facts : Vars
  pub exception : Option Fault
  pub warnings : List Fault

-- the files, and the commands that were run
pub record HostState : Type 0 where
  pub files : Dict Node
  pub ran : List Command

-- the host, and `m.Return.ret` of the module
pub record Machine : Type 0 where
  pub host : HostState
  pub ret : Return

-- user.Group
pub record GroupEntry : Type 0 where
  pub name : Str
  pub gid : Str

-- What is outside of the program: the operating system, and `mapstructure`, by which UpdateReturn
-- merges an update into a return value.
pub record System : Type 0 where
  pub answer : HostState → Command → Outcome Fault RunResult
  pub files_after : HostState → Command → Dict Node
  pub can_read : Str → Bool
  pub can_write : Str → Bool
  -- the directories of $PATH
  pub path_env : List Str
  -- user.LookupGroup and user.LookupGroupId; `none` is an UnknownGroupError
  pub lookup_group : HostState → Str → Outcome Fault (Option GroupEntry)
  pub lookup_group_id : HostState → Str → Outcome Fault (Option GroupEntry)
  -- filepath.Glob; `none` is a nil slice
  pub glob : HostState → Str → Outcome Fault (Option (List Str))
  pub platform : Str
  pub distribution : Str
  pub merge_return : Return → Return → Return

abbrev pub Io : Type 0 → Type 0
Io A = Machine → Machine × Outcome Fault A

module _ {A B : Type 0} where
  abbrev pub continue : Machine × Outcome Fault A → (A → Io B) → Machine × Outcome Fault B
  continue (w, ok a) f = f a w
  continue (w, err e) f = (w, err e)
  continue (w, panic) f = (w, panic)

  infixl 5 ◌>>=◌
  abbrev pub ◌>>=◌ : Io A → (A → Io B) → Io B
  (m >>= f) w = continue (m w) f

module _ {A : Type 0} where
  abbrev pub pure : A → Io A
  pure a w = (w, ok a)

  abbrev pub fail : Fault → Io A
  fail e w = (w, err e)

  abbrev pub crash : Io A
  crash w = (w, panic)

  abbrev pub lift : Outcome Fault A → Io A
  lift r w = (w, r)

  abbrev pub reified : Machine × Outcome Fault A → Machine × Outcome Fault (Outcome Fault A)
  reified (w, panic) = (w, panic)
  reified (w, ok a) = (w, ok (ok a))
  reified (w, err e) = (w, ok (err e))

  -- the error of a call as a value, where the code looks at it
  abbrev pub attempt : Io A → Io (Outcome Fault A)
  attempt m w = reified (m w)

  abbrev pub wrap_result : Str → Machine × Outcome Fault A → Machine × Outcome Fault A
  wrap_result text (w, err e) = (w, err (wrapped text e))
  wrap_result text (w, ok a) = (w, ok a)
  wrap_result text (w, panic) = (w, panic)

  -- `return fmt.Errorf("…: %w", err)`
  abbrev pub wrap_error : Str → Io A → Io A
  wrap_error text m w = wrap_result text (m w)

abbrev pub when : Bool → Io Unit → Io Unit
when true m = m
when false m = pure tt

-- `os.IsNotExist(err)` and `os.IsPermission(err)` look at no wrapped error.
abbrev pub is_not_exist : Fault → Bool
is_not_exist not_exist = true
is_not_exist _ = false

abbrev pub is_permission : Fault → Bool
is_permission denied = true
is_permission _ = false

module _ (sys : System) where
  -- `m.RunCommand(…)`
  unfoldable pub run_command : Command → Io RunResult
  run_command c w = (
    record w { host = record { files = sys.files_after w.host c; ran = w.host.ran ++ c ∷ [] } },
    sys.answer w.host c,
  )

  -- os.Stat
  unfoldable pub stat : Str → Io Node
  unfolding lookup
  stat path w = elim (lookup path w.host.files) [ none ↦ (w, err not_exist) | some n ↦ (w, ok n) ]

  abbrev content : Node → Outcome Fault Str
  content (regular s) = ok s
  content executable = ok []
  content directory = err (failure (codes "is a directory"))
  content (special s) = ok s

  -- os.ReadFile, and os.Open with a read of all
  unfoldable pub read_file : Str → Io Str
  unfolding stat
  read_file path = stat path >>= λ n. if sys.can_read path then lift (content n) else fail denied

  abbrev not_directory : Option Node → Bool
  not_directory (some directory) = false
  not_directory _ = true

  abbrev written : Option Node → Str → Node
  written (some (special s)) text = special s
  written _ text = regular text

  -- os.WriteFile; with os.OpenFile, Truncate, Seek and Write the same
  unfoldable pub write_file : Str → Str → Io Unit
  unfolding lookup insert
  write_file path text w =
      if not_directory (lookup path w.host.files) && sys.can_write path
      then (
        record w {
          host = record w.host {
            files = insert path (written (lookup path w.host.files) text) w.host.files;
          };
        },
        ok tt,
      )
      else (w, err denied)

  abbrev opened : Str → Option Node → Io Str
  unfolding insert
  opened path none w =
      (record w { host = record w.host { files = insert path (regular []) w.host.files } }, ok [])
  opened path (some n) w = (w, content n)

  -- os.OpenFile for reading and writing, which makes the file where there is none, and a read of all
  unfoldable pub open_or_create : Str → Io Str
  unfolding lookup opened
  open_or_create path w =
      if sys.can_read path && sys.can_write path
      then opened path (lookup path w.host.files) w
      else (w, err denied)

  -- utils/wrappers
  unfoldable pub update_return : Return → Io Unit
  update_return update w = (record w { ret = sys.merge_return w.ret update }, ok tt)

abbrev pub args : List Str → Command
args argv = record {
  argv = argv;
  unsafe_shell = false;
  environ = [];
  path_prefix = [];
  cwd = [];
  stdin = [];
}

abbrev pub no_return : Return
no_return = record {
  changed = false;
  failed = false;
  stdout = [];
  stderr = [];
  specific = Value.null;
  facts = [];
  exception = none;
  warnings = [];
}

unfoldable pub warn : Fault → Io Unit
warn e w = (record w { ret = record w.ret { warnings = w.ret.warnings ++ e ∷ [] } }, ok tt)

unfoldable pub mark_return_failed : Fault → Io Return
unfolding warn
mark_return_failed e w =
    let failed = record w { ret = record w.ret { failed = true; exception = some e } } in
    (warn e >>= λ _ w. (w, ok w.ret)) failed

abbrev pub get_return : Io Return
get_return w = (w, ok w.ret)

abbrev pub marked : Outcome Fault Return → Io Return
unfolding mark_return_failed
marked (ok ret) = pure ret
marked (err e) = mark_return_failed e
marked panic = crash

-- The body of a Run: each error that it meets marks the return value as failed.
unfoldable pub or_failed : Io Return → Io Return
unfolding marked
or_failed body = attempt body >>= marked

-- `RunCommandResult.Validate`
unfoldable pub validate_result : RunResult → Outcome Fault Unit
validate_result r = if eq_ℤ r.rc (pos 0) then ok tt else err (failure (codes "command failed"))
