-- ===== src/Plugins/Become.antt =====
-- plugins/become: the command lines of su and sudo, and what their output says. The texts of packages
-- shellescape, shlex and gettext are parameters.
use gosible.Base.{
  ℕ, Bool, true, false, not, ◌&&◌, ◌||◌, Option, none, some, List, [], ◌∷◌, ◌++◌, map, ◌+◌,
  if◌then◌else◌, is_empty, any_of, length, Outcome, ok, err, panic,
}
use gosible.GoText.{Str, codes, str_eq, contains, split, join}
use gosible.Values.{Value}
use gosible.Executor.Connections.{BecomeArgs}
use gosible.Machine.{Fault}

-- utils/shell: Shell
pub record Shell : Type 0 where
  pub echo : Str
  pub command_sep : Str
  pub executable_path : Str

pub record Quoting : Type 0 where
  -- shellescape.Quote and shellescape.QuoteCommand
  pub quote : Str → Str
  pub quote_command : List Str → Str
  -- shlex.Split
  pub shell_words : Str → Outcome Fault (List Str)
  -- gettext.DGettext
  pub translate : Str → Str → Str

-- Base
pub record Become : Type 0 where
  pub become_args : BecomeArgs
  pub id : Str
  pub plugin_name : Str
  pub fail_texts : List Str
  pub missing_texts : List Str
  pub prompt : Str
  pub success : Str

abbrev pub new_become : BecomeArgs → Str → List Str → List Str → Become
new_become given name fails missing = record {
  become_args = given;
  id = [];
  plugin_name = name;
  fail_texts = fails;
  missing_texts = missing;
  prompt = [];
  success = [];
}

unfoldable pub new_su : BecomeArgs → Become
new_su given = new_become given (codes "su") (codes "Authentication failure" ∷ []) []

unfoldable pub new_sudo : BecomeArgs → Become
new_sudo given =
    new_become given (codes "sudo") (codes "Sorry, try again." ∷ []) (
      codes "Sorry, a password is required to run sudo" ∷ codes "sudo: a password is required" ∷ [])

-- GetOption; the executable and all other options are nil
unfoldable pub get_option : Become → Str → Value
unfolding str_eq
get_option b name =
    if str_eq name (codes "become_user")
    then Value.str b.become_args.user
    else if str_eq name (codes "become_pass")
    then Value.str b.become_args.password
    else if str_eq name (codes "become_flags")
    then Value.str b.become_args.flags
    else Value.null

abbrev pub is_nil : Value → Bool
is_nil Value.null = true
is_nil _ = false

unfoldable pub expect_prompt : Become → Bool
unfolding get_option
expect_prompt b = not (is_empty b.prompt) && not (is_nil (get_option b (codes "become_pass")))

-- `s, ok := v.(string)`, where s is "" if it is none
abbrev pub text_or_empty : Value → Str
text_or_empty (Value.str s) = s
text_or_empty _ = []

-- the parts with spaces between them
abbrev pub spaced : List Str → Str
unfolding join
spaced parts = join (codes " ") parts

-- what BuildBecomeCommand returns, and the plugin after it
pub record Built : Type 0 where
  pub plugin : Become
  pub command_line : Str
  pub parts : ℕ

module _ (q : Quoting) where
  abbrev pub with_executable : Str → Bool → Str → Str
  with_executable exe no_exe cmd =
      if not (is_empty exe) && not no_exe then spaced (exe ∷ codes "-c" ∷ cmd ∷ []) else cmd

  unfoldable pub build_success_command : Become → Str → Option Shell → Bool → Str
  build_success_command b cmd none no_exe = cmd
  build_success_command b cmd (some sh) no_exe =
      if is_empty cmd || is_empty b.success
      then cmd
      else with_executable sh.executable_path no_exe
          (q.quote (spaced (sh.echo ∷ b.success ∷ codes ">&2" ∷ sh.command_sep ∷ cmd ∷ [])))

  abbrev pub any_line : Str → Str → Bool
  unfolding split contains
  any_line output text = any_of (λ line. contains line text) (split b'\n' output)

  unfoldable pub check_success : Become → Str → Bool
  unfolding any_line
  check_success b output = any_line output b.success

  -- Su has another test of its own.
  unfoldable pub check_password_prompt : Become → Str → Bool
  unfolding any_line
  check_password_prompt b output = not (is_empty b.prompt) && any_line output b.prompt

  unfoldable pub check_password_error : Become → Str → Str → Bool
  unfolding contains
  check_password_error b output text =
      not (is_empty (q.translate b.plugin_name text))
      && contains output (q.translate b.plugin_name text)

  unfoldable pub check_incorrect_password : Become → Str → Bool
  unfolding check_password_error
  check_incorrect_password b output = any_of (check_password_error b output) b.fail_texts

  unfoldable pub check_missing_password : Become → Str → Bool
  unfolding check_password_error
  check_missing_password b output = any_of (check_password_error b output) b.missing_texts

  -- genId, from 32 numbers below 26 that are drawn
  abbrev pub gen_id : List ℕ → Str
  gen_id rolls = map (λ r. b'a' + r) rolls

  unfoldable pub build_become_cmd_hook : List ℕ → Become → Become
  build_become_cmd_hook rolls b = record b {
    id = gen_id rolls;
    success = codes "BECOME-SUCCESS-" ++ gen_id rolls;
  }

  abbrev pub exe_of : Become → Str
  unfolding get_option
  exe_of b =
      if is_empty (text_or_empty (get_option b (codes "become_exe")))
      then b.plugin_name
      else text_or_empty (get_option b (codes "become_exe"))

  abbrev pub option_text : Become → Str → Str
  unfolding get_option
  option_text b name = text_or_empty (get_option b name)

  abbrev pub su_prompt : Str
  su_prompt =
      codes
        "Prompt handling for ``su`` is more complicated, this is used to satisfy the connection plugin"

  abbrev pub su_line : Become → Str → Option Shell → Str
  unfolding build_success_command exe_of option_text
  su_line b cmd sh = spaced (
      exe_of b
      ∷ option_text b (codes "become_flags")
      ∷ option_text b (codes "become_user")
      ∷ codes "-c"
      ∷ q.quote (build_success_command b cmd sh false)
      ∷ [])

  -- Su's BuildBecomeCommand
  unfoldable pub build_su_command : List ℕ → Become → Str → Option Shell → Built
  unfolding build_become_cmd_hook su_line
  build_su_command rolls b cmd sh =
      if is_empty cmd
      then record { plugin = begun; command_line = cmd; parts = 0 }
      else record { plugin = begun; command_line = su_line begun cmd sh; parts = 1 }
    where
      begun : Become
      begun = record (build_become_cmd_hook rolls b) { prompt = su_prompt }

  abbrev pub is_interactive : Str → Bool
  unfolding str_eq
  is_interactive flag = not (str_eq flag (codes "-n") || str_eq flag (codes "--non-interactive"))

  abbrev pub kept_flags : List Str → List Str
  unfolding is_interactive
  kept_flags [] = []
  kept_flags (f ∷ fs) = if is_interactive f then f ∷ kept_flags fs else kept_flags fs

  -- The flags are appended to a slice that has an empty text for each of them.
  unfoldable pub sudo_flags : List Str → List Str
  unfolding kept_flags
  sudo_flags flags = map (λ f. []) flags ++ kept_flags flags

  abbrev pub sudo_prompt : Become → Str
  sudo_prompt b = codes "[sudo via ansible, key=" ++ b.id ++ codes "] password:"

  abbrev pub sudo_user : Str → Str
  sudo_user user = if is_empty user then user else codes "-u " ++ user

  abbrev pub sudo_line : Become → Str → Option Shell → Str → Str → Str
  unfolding build_success_command exe_of option_text
  sudo_line b cmd sh flags prompt_part = spaced (
      exe_of b
      ∷ (codes "-S " ++ flags)
      ∷ prompt_part
      ∷ sudo_user (option_text b (codes "become_user"))
      ∷ build_success_command b cmd sh false
      ∷ [])

  abbrev pub sudo_built : Become → Str → Option Shell → Str → Str → Built
  unfolding sudo_line
  sudo_built b cmd sh flags prompt_part = record {
    plugin = b;
    command_line = sudo_line b cmd sh flags prompt_part;
    parts = length b.success + 1;
  }

  abbrev pub with_flags :
      Become → Str → Option Shell → Outcome Fault (List Str) → Outcome Fault Built
  unfolding sudo_flags sudo_built
  with_flags b cmd sh (ok flags) = ok (
      sudo_built b cmd sh (q.quote_command (sudo_flags flags))
        (codes "-p \"" ++ b.prompt ++ codes "\""))
  with_flags b cmd sh (err e) = err e
  with_flags b cmd sh panic = panic

  -- Sudo's BuildBecomeCommand
  unfoldable pub build_sudo_command : List ℕ → Become → Str → Option Shell → Outcome Fault Built
  unfolding build_become_cmd_hook with_flags sudo_built option_text
  build_sudo_command rolls b cmd sh =
      if is_empty cmd
      then ok (record { plugin = begun; command_line = cmd; parts = 0 })
      else if is_empty (option_text begun (codes "become_pass"))
      then ok (sudo_built begun cmd sh (option_text begun (codes "become_flags")) [])
      else with_flags (record begun { prompt = sudo_prompt begun }) cmd sh
          (q.shell_words (option_text begun (codes "become_flags")))
    where
      begun : Become
      begun = build_become_cmd_hook rolls b
