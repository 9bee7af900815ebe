-- ===== src/Modules/Service.antt =====
-- modules/service/base_service.go: the state of a service, and what the module does with any
-- service. A command that is one text stands as the only argument of a `Command`.
pub mod Regexps
pub mod Linux
pub mod Decisions
use gosible.Base.{
  Bool, true, false, not, ◌&&◌, ◌||◌, Option, none, some, List, [], ◌∷◌, ◌++◌, if◌then◌else◌,
  is_empty, any_of, Outcome, ok, err, panic,
}
use gosible.Base.Int.{ℤ, pos, eq_ℤ}
use gosible.GoText.{Str, codes, str_eq, contains, split, trim_space}
use gosible.Dict.{Dict}
use gosible.Machine.{System, Machine, RunResult, Command, Fault, failure, Io, run_command, args}
use gosible.Machine.Paths.{get_bin_path}
use gosible.Utilities.Version.{Loose}

pub record ServiceParams : Type 0 where
  pub arguments : Str
  pub enabled : Option Bool
  pub name : Str
  pub pattern : Str
  pub runlevel : Str
  pub state : Str

-- basicServiceSharedState and linuxService. The field `changed` of baseService, which no code
-- writes, is `base_changed`; the one of the shared state is `changed`.
pub record ServiceState : Type 0 where
  pub base_changed : Bool
  pub changed : Bool
  pub running : Option Bool
  pub crashed : Bool
  pub svc_cmd : Str
  pub systemd_unit : Str
  pub svc_init_script : Str
  pub svc_init_ctl : Str
  pub enable_cmd : Str
  pub upstart_version : Loose

abbrev pub new_service : ServiceState
new_service = record {
  base_changed = false;
  changed = false;
  running = none;
  crashed = false;
  svc_cmd = [];
  systemd_unit = [];
  svc_init_script = [];
  svc_init_ctl = [];
  enable_cmd = [];
  upstart_version = [];
}

-- a call that reads and writes the service and runs on the machine
abbrev pub Act : Type 0 → Type 0
Act A = ServiceState → Machine → (ServiceState × Machine) × Outcome Fault A

module _ {A B : Type 0} where
  abbrev pub continue_act :
      (ServiceState × Machine) × Outcome Fault A
      → (A → Act B)
      → (ServiceState × Machine) × Outcome Fault B
  continue_act ((l, w), ok a) f = f a l w
  continue_act (s, err e) f = (s, err e)
  continue_act (s, panic) f = (s, panic)

  infixl 5 ◌>>=◌
  abbrev pub ◌>>=◌ : Act A → (A → Act B) → Act B
  (m >>= f) l w = continue_act (m l w) f

module _ {A : Type 0} where
  abbrev pub done : A → Act A
  done a l w = ((l, w), ok a)

  abbrev pub fails : Fault → Act A
  fails e l w = ((l, w), err e)

  abbrev pub panics : Act A
  panics l w = ((l, w), panic)

  abbrev pub beside :
      ServiceState → Machine × Outcome Fault A → (ServiceState × Machine) × Outcome Fault A
  beside l (w, r) = ((l, w), r)

  -- a call that does not know the service
  abbrev pub io : Io A → Act A
  io m l w = beside l (m w)

  abbrev pub caught :
      (ServiceState × Machine) × Outcome Fault A
      → (ServiceState × Machine) × Outcome Fault (Outcome Fault A)
  caught (s, ok a) = (s, ok (ok a))
  caught (s, err e) = (s, ok (err e))
  caught (s, panic) = (s, panic)

  abbrev pub catch : Act A → Act (Outcome Fault A)
  catch m l w = caught (m l w)

abbrev pub get_state : Act ServiceState
get_state l w = ((l, w), ok l)

abbrev pub modify_state : (ServiceState → ServiceState) → Act Unit
modify_state f l w = ((f l, w), ok tt)

abbrev pub set_running : Bool → Act Unit
set_running b = modify_state λ l. record l { running = some b }

abbrev pub set_changed_to : Bool → Act Unit
set_changed_to b = modify_state λ l. record l { changed = b }

-- isTrue
abbrev pub is_true : Option Bool → Bool
is_true (some b) = b
is_true none = false

abbrev pub one_of : List Str → Str → Bool
unfolding str_eq
one_of texts s = any_of (λ t. str_eq t s) texts

-- the parts, with a space between them: `fmt.Sprintf("%s %s", …)`
abbrev pub words : List Str → Str
words [] = []
words (w ∷ []) = w
words (w ∷ v ∷ ws) = w ++ b' ' ∷ words (v ∷ ws)

unfoldable pub first_available : List Str → List Str → Str
unfolding one_of
first_available available [] = codes "C"
first_available available (pref ∷ prefs) =
    if one_of available pref then pref else first_available available prefs

abbrev pub locale_preferences : List Str
locale_preferences = codes "C.utf8" ∷ codes "en_US.utf8" ∷ codes "C" ∷ codes "POSIX" ∷ []

unfoldable pub available_locales : RunResult → List Str
unfolding split trim_space
available_locales r =
    if eq_ℤ r.rc (pos 0) && not (is_empty r.stdout) then split b'\n' (trim_space r.stdout) else []

module _ (sys : System) (p : ServiceParams) where
  abbrev locale_from : Outcome Fault RunResult → Act Str
  unfolding available_locales first_available
  locale_from (ok r) = done (first_available (available_locales r) locale_preferences)
  locale_from (err e) = panics
  locale_from panic = panics

  abbrev locale_at : Outcome Fault Str → Act Str
  unfolding run_command locale_from
  locale_at (ok path) = catch (io (run_command sys (args (path ∷ codes "-a" ∷ [])))) >>= locale_from
  locale_at (err e) = done []
  locale_at panic = panics

  -- GetBestParsableLocale, with no preferences and no error for a missing locale. The result of a
  -- command that fails is nil, and is read.
  unfoldable pub best_locale : Act Str
  unfolding get_bin_path locale_at
  best_locale = catch (io (get_bin_path sys (codes "locale") [] true)) >>= locale_at

  abbrev lang_env : Str → Dict Str
  lang_env loc = (codes "LANG", loc) ∷ (codes "LC_ALL", loc) ∷ (codes "LC_MESSAGE", loc) ∷ []

  unfoldable pub execute_command : Str → Act RunResult
  unfolding best_locale run_command
  execute_command cmd = best_locale >>= λ loc. io (
      run_command sys (record {
        argv = cmd ∷ [];
        unsafe_shell = false;
        environ = lang_env loc;
        path_prefix = [];
        cwd = [];
        stdin = [];
      }))

  abbrev ps_line_matches : Str → Bool
  unfolding contains
  ps_line_matches line = contains line p.pattern && not (contains line (codes "pattern="))

  abbrev running_from : Outcome Fault RunResult → Act Unit
  unfolding split ps_line_matches
  running_from (ok r) =
      if eq_ℤ r.rc (pos 0)
      then set_running (not (is_empty p.pattern) && any_of ps_line_matches (split b'\n' r.stdout))
      else done tt
  running_from (err e) = panics
  running_from panic = panics

  -- The error of the command is not looked at, and its result, which is nil then, is read.
  unfoldable pub check_ps : Act Unit
  unfolding get_bin_path running_from run_command str_eq
  check_ps = io (get_bin_path sys (codes "ps") [] true) >>= λ ps_bin.
      catch (
        io (
          run_command sys (record {
            argv =
                words (
                  ps_bin
                  ∷ (if str_eq sys.platform (codes "SunOs") then codes "-ef" else codes "auxww")
                  ∷ [])
                ∷ [];
            unsafe_shell = false;
            environ = [];
            path_prefix = [];
            cwd = [];
            stdin = [];
          })))
      >>= running_from

  abbrev is_unknown : Option Bool → Bool
  is_unknown none = true
  is_unknown (some b) = false

  unfoldable pub check_service_changed : Act Bool
  unfolding one_of str_eq
  check_service_changed = get_state >>= λ l.
      if is_empty p.state && is_unknown l.running
      then fails
          (failure (codes "failed determining service state, possible typo of service name?"))
      else done (
          (not (is_true l.running) && one_of (codes "reloaded" ∷ codes "started" ∷ []) p.state)
          || ((is_true l.running && one_of (codes "reloaded" ∷ codes "stopped" ∷ []) p.state)
              || str_eq p.state (codes "restarted")))

  -- the action of modifyServiceState
  unfoldable pub action_for : Option Bool → Str
  unfolding str_eq
  action_for running =
      if not (is_true running) && str_eq p.state (codes "reloaded")
      then codes "start"
      else if str_eq p.state (codes "started")
      then codes "start"
      else if str_eq p.state (codes "stopped")
      then codes "stop"
      else if str_eq p.state (codes "reloaded")
      then codes "reload"
      else if str_eq p.state (codes "restarted")
      then codes "restart"
      else []

  unfoldable pub has_changed : Act Bool
  has_changed l w = ((l, w), ok l.base_changed)
