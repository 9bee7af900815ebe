-- ===== src/Modules/Hostname/Networks.antt =====
-- modules/hostname/hostname.go: the host's name in /etc/sysconfig/network.
use gosible.Base.{
  ◌≡◌, refl, sym, ap, ◌∙◌, true, false, some, List, [], ◌∷◌, ◌++◌, map, if◌then◌else◌, any_of, inl,
  inr, Bool-cases, arith, ok, or_false, All,
}
use gosible.GoText.{Str, split, has_prefix, trim_space, contains_byte}
use gosible.Dict.{insert, lookup}
use gosible.Dict.Laws.{lookup-insert_self}
use gosible.GoText.Laws.{split_none, split-append}
use gosible.GoText.Lines.{
  scan_lines, strip_cr, trim_space-strip_cr, IsLine, scan_lines-IsLine, scan_lines-unlines,
}
use gosible.Machine.{
  System, Machine, stat, open_or_create, write_file, read_file, regular, ◌>>=◌, continue,
  wrap_result, wrap_error,
}
use gosible.Modules.Hostname.{
  update_failed, hostname_key, find_network_name, second_part, network_line, replace_lines,
  with_line, begins, unlines, set_network_hostname, network_hostname,
}

-- a name of one word, with no equals sign
pub record IsName (name : Str) : Type 0 where
  pub no_equals : contains_byte b'=' name ≡ false
  pub no_newline : contains_byte b'\n' name ≡ false
  pub trimmed : trim_space name ≡ name
  pub line_trimmed : trim_space (network_line name) ≡ network_line name

split_line : (name : Str) → IsName name → split b'=' (network_line name) ≡ hostname_key ∷ name ∷ []
unfolding contains_byte
split_line name n =
    split-append b'=' hostname_key name refl
    ∙ ap (λ ps. hostname_key ∷ ps) (split_none b'=' name n.no_equals)

find_key :
    (l v : Str) (ls : List Str)
    → begins hostname_key l ≡ true
    → second_part (split b'=' (trim_space l)) ≡ some v
    → find_network_name (l ∷ ls) ≡ some v
unfolding find_network_name
find_key l v ls h k = rw h (rw k refl)

find_other :
    (l : Str) (ls : List Str)
    → begins hostname_key l ≡ false
    → find_network_name (l ∷ ls) ≡ find_network_name ls
unfolding find_network_name
find_other l ls h = rw h refl

begins-line : (name : Str) → IsName name → begins hostname_key (network_line name) ≡ true
unfolding has_prefix begins
begins-line name n = rw n.line_trimmed refl

-- The line that is written gives the name.
find_line :
    (name : Str) (ls : List Str)
    → IsName name
    → find_network_name (strip_cr (network_line name) ∷ ls) ≡ some name
unfolding second_part has_prefix begins
find_line name ls n =
    find_key (strip_cr (network_line name)) name ls
      (ap (λ l. has_prefix l hostname_key) trimmed ∙ begins-line name n)
      (ap (λ l. second_part (split b'=' l)) (trimmed ∙ n.line_trimmed)
        ∙ ap second_part (split_line name n)
        ∙ second)
  where
    trimmed : trim_space (strip_cr (network_line name)) ≡ trim_space (network_line name)
    trimmed = trim_space-strip_cr (network_line name)

    second : second_part (hostname_key ∷ name ∷ []) ≡ some name
    second = ap some n.trimmed

find-replaced :
    (name : Str) (ls : List Str)
    → IsName name
    → any_of (begins hostname_key) ls ≡ true
    → find_network_name (map strip_cr (replace_lines hostname_key (network_line name) ls))
      ≡ some name
unfolding replace_lines
find-replaced name [] n h = cc
find-replaced name (l ∷ ls) n h = elim (Bool-cases (begins hostname_key l)) [
  | inl e ↦
      rw e (find_line name (map strip_cr (replace_lines hostname_key (network_line name) ls)) n)
  | inr e ↦ rw e (
      find_other (strip_cr l) _ (ap (λ t. has_prefix t hostname_key) (trim_space-strip_cr l) ∙ e)
      ∙ find-replaced name ls n (rest e))
]
  where
    rest : begins hostname_key l ≡ false → any_of (begins hostname_key) ls ≡ true
    rest e = ground arith

find-appended :
    (name : Str) (ls : List Str)
    → IsName name
    → any_of (begins hostname_key) ls ≡ false
    → find_network_name
        (map strip_cr (replace_lines hostname_key (network_line name) ls ++ network_line name ∷ []))
      ≡ some name
unfolding replace_lines
find-appended name [] n h = find_line name [] n
find-appended name (l ∷ ls) n h =
    let (e, rest) = or_false (begins hostname_key l) (any_of (begins hostname_key) ls) h in
    rw e (
      find_other (strip_cr l) _ (ap (λ t. has_prefix t hostname_key) (trim_space-strip_cr l) ∙ e)
      ∙ find-appended name ls n rest)

find-with_line :
    (name : Str) (ls : List Str)
    → IsName name
    → find_network_name (map strip_cr (with_line hostname_key (network_line name) ls)) ≡ some name
unfolding with_line
find-with_line name ls n = elim (Bool-cases (any_of (begins hostname_key) ls)) [
  | inl e ↦ rw e (find-replaced name ls n e)
  | inr e ↦ rw e (find-appended name ls n e)
]

with_line-cons :
    (key new : Str) (ls : List Str)
    → IsLine new
    → All IsLine ls
    → (p : Str) × (ps : List Str) × (with_line key new ls ≡ p ∷ ps) × All IsLine (p ∷ ps)
unfolding with_line
with_line-cons key new ls n h = elim (Bool-cases (any_of (begins key) ls)) [
  | inl e ↦ rw e (replaced ls h e)
  | inr e ↦ rw e (appended ls h)
]
  where
    one : (l : Str) → IsLine l → IsLine (if begins key l then new else l)
    one l k = elim (Bool-cases (begins key l)) [ inl e ↦ rw e n | inr e ↦ rw e k ]

    all : (ls : List Str) → All IsLine ls → All IsLine (replace_lines key new ls)
    all [] k = tt
    all (l ∷ ls) k = (one l k.0, all ls k.1)

    all_appended :
        (ls : List Str) → All IsLine ls → All IsLine (replace_lines key new ls ++ new ∷ [])
    all_appended [] k = (n, tt)
    all_appended (l ∷ ls) k = (one l k.0, all_appended ls k.1)

    replaced :
        (ls : List Str)
        → All IsLine ls
        → any_of (begins key) ls ≡ true
        → (p : Str) × (ps : List Str) × (replace_lines key new ls ≡ p ∷ ps) × All IsLine (p ∷ ps)
    replaced [] k e = cc
    replaced (l ∷ ls) k e = (_, _, refl, all (l ∷ ls) k)

    appended :
        (ls : List Str)
        → All IsLine ls
        → (p : Str) × (ps : List Str) × (replace_lines key new ls ++ new ∷ [] ≡ p ∷ ps)
          × All IsLine (p ∷ ps)
    appended [] k = (_, _, refl, (n, tt))
    appended (l ∷ ls) k = (_, _, refl, all_appended (l ∷ ls) k)

network_line-IsLine : (name : Str) → IsName name → IsLine (network_line name)
unfolding contains_byte
network_line-IsLine name n = n.no_newline

-- The text that is written gives the name.
find-written :
    (name text : Str)
    → IsName name
    → find_network_name
        (scan_lines (unlines (with_line hostname_key (network_line name) (scan_lines text))))
      ≡ some name
find-written name text n =
    let (p, ps, e, h) =
      with_line-cons hostname_key (network_line name) (scan_lines text) (network_line-IsLine name n)
        (scan_lines-IsLine text) in
    ap (λ ls. find_network_name (scan_lines (unlines ls))) e
    ∙ ap find_network_name (scan_lines-unlines p ps h)
    ∙ ap (λ ls. find_network_name (map strip_cr ls)) (sym e)
    ∙ find-with_line name (scan_lines text) n

module _ (sys : System) (file : Str) where
  stat-regular :
      (w : Machine) (text : Str)
      → lookup file w.host.files ≡ some (regular text)
      → stat sys file w ≡ (w, ok (regular text))
  unfolding stat
  stat-regular w text h = rw (stat, h) refl

  read_file-regular :
      (w : Machine) (text : Str)
      → sys.can_read file ≡ true
      → lookup file w.host.files ≡ some (regular text)
      → read_file sys file w ≡ (w, ok text)
  unfolding read_file
  read_file-regular w text r h = rw (stat-regular w text h) (rw r refl)

  open_or_create-regular :
      (w : Machine) (text : Str)
      → sys.can_read file ≡ true
      → sys.can_write file ≡ true
      → lookup file w.host.files ≡ some (regular text)
      → open_or_create sys file w ≡ (w, ok text)
  unfolding open_or_create
  open_or_create-regular w text r v h = rw r (rw v (rw h refl))

  after_write : Str → Machine → Machine
  after_write text w = record w {
    host = record w.host { files = insert file (regular text) w.host.files };
  }

  write_file-regular :
      (w : Machine) (old new : Str)
      → sys.can_write file ≡ true
      → lookup file w.host.files ≡ some (regular old)
      → write_file sys file new w ≡ (after_write new w, ok tt)
  unfolding write_file after_write
  write_file-regular w old new v h = rw h (rw v refl)

  network_hostname-regular :
      (w : Machine) (text name : Str)
      → sys.can_read file ≡ true
      → lookup file w.host.files ≡ some (regular text)
      → find_network_name (scan_lines text) ≡ some name
      → (network_hostname sys file w).1 ≡ ok name
  unfolding network_hostname
  network_hostname-regular w text name r h f = rw (read_file-regular w text r h) (rw f refl)

  abbrev written : Str → Str → Str
  written name text = unlines (with_line hostname_key (network_line name) (scan_lines text))

  set_network_hostname-regular :
      (w : Machine) (name text : Str)
      → sys.can_read file ≡ true
      → sys.can_write file ≡ true
      → lookup file w.host.files ≡ some (regular text)
      → set_network_hostname sys file name w ≡ (after_write (written name text) w, ok tt)
  unfolding set_network_hostname
  set_network_hostname-regular w name text r v h =
      ap
        (λ r.
          continue (wrap_result update_failed r)
            (λ text. wrap_error update_failed (write_file sys file (written name text))))
        (open_or_create-regular w text r v h)
      ∙ ap (wrap_result update_failed) (write_file-regular w text (written name text) v h)

  -- After a name of one word, with no equals sign, is set in a file that can be read and written,
  -- the name that is got from the file is this name.
  pub set_network_hostname-network_hostname :
      (w : Machine) (name text : Str)
      → IsName name
      → sys.can_read file ≡ true
      → sys.can_write file ≡ true
      → lookup file w.host.files ≡ some (regular text)
      → ((set_network_hostname sys file name >>= λ _. network_hostname sys file) w).1 ≡ ok name
  unfolding after_write
  set_network_hostname-network_hostname w name text n r v h =
      ap (λ r. (continue r (λ _. network_hostname sys file)).1)
        (set_network_hostname-regular w name text r v h)
      ∙ network_hostname-regular (after_write (written name text) w) (written name text) name r
          (lookup-insert_self file (regular (written name text)) w.host.files)
          (find-written name text n)
