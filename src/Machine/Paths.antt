-- ===== src/Machine/Paths.antt =====
-- utils/path/path.go: files and executables.
use gosible.Base.{Bool, true, false, List, [], ◌∷◌, ◌++◌, if◌then◌else◌, Outcome, ok, err, panic}
use gosible.GoText.{Str, codes}
use gosible.Machine.{
  System, Node, regular, executable, directory, Fault, not_exist, failure, Io, pure, fail, lift,
  attempt, stat, is_not_exist, ◌>>=◌, wrapped,
}

abbrev pub is_dir_node : Node → Bool
is_dir_node directory = true
is_dir_node _ = false

abbrev pub is_exec_node : Node → Bool
is_exec_node executable = true
is_exec_node directory = true
is_exec_node _ = false

abbrev is_regular_node : Node → Bool
is_regular_node (regular _) = true
is_regular_node executable = true
is_regular_node _ = false

module _ (sys : System) where
  unfoldable pub is_directory : Str → Io Bool
  unfolding stat
  is_directory path = stat sys path >>= λ n. pure (is_dir_node n)

  unfoldable pub is_regular : Str → Io Bool
  unfolding stat
  is_regular path = stat sys path >>= λ n. pure (is_regular_node n)

  abbrev pub exists_from : Outcome Fault Node → Io Bool
  exists_from (ok n) = pure true
  exists_from (err e) = if is_not_exist e then pure false else fail e
  exists_from panic = lift panic

  unfoldable pub exists : Str → Io Bool
  unfolding stat
  exists path = attempt (stat sys path) >>= exists_from

  -- A directory has the bits for execution as well.
  unfoldable pub is_executable : Str → Io Bool
  unfolding stat
  is_executable path = stat sys path >>= λ n. pure (is_exec_node n)

  unfoldable pub existing_dirs : List Str → Io (List Str)
  unfolding exists
  existing_dirs [] = pure []
  existing_dirs (dir ∷ dirs) = exists dir >>= λ found.
      existing_dirs dirs >>= λ rest. pure (if found then dir ∷ rest else rest)

  abbrev pub searched_dirs : List Str → List Str
  searched_dirs opt_dirs = codes "/sbin" ∷ codes "/usr/sbin" ∷ codes "/usr/local/sbin" ∷ opt_dirs

  unfoldable pub get_paths : List Str → Io (List Str)
  unfolding existing_dirs
  get_paths opt_dirs =
      existing_dirs (searched_dirs opt_dirs) >>= λ dirs. pure (sys.path_env ++ dirs)

  -- filepath.Join, on a directory that has no slash at its end
  abbrev pub join_path : Str → Str → Str
  join_path [] name = name
  join_path (c ∷ dir) name = (c ∷ dir) ++ b'/' ∷ name

  abbrev wraps_not_exist : Fault → Bool
  wraps_not_exist not_exist = true
  wraps_not_exist (wrapped text e) = wraps_not_exist e
  wraps_not_exist _ = false

  abbrev pub found : Str → Io Str → Outcome Fault Bool → Io Str
  found path next (ok true) = pure path
  found path next (ok false) = next
  found path next (err e) = if wraps_not_exist e then next else fail e
  found path next panic = lift panic

  unfoldable pub search_paths : Str → Bool → List Str → Io Str
  unfolding is_executable
  search_paths name err_on_not_found [] =
      if err_on_not_found
      then fail (failure (codes "failed to find required executable"))
      else pure []
  search_paths name err_on_not_found (dir ∷ dirs) =
      attempt (is_executable (join_path dir name))
      >>= found (join_path dir name) (search_paths name err_on_not_found dirs)

  unfoldable pub get_bin_path : Str → List Str → Bool → Io Str
  unfolding get_paths search_paths
  get_bin_path name opt_dirs err_on_not_found =
      get_paths opt_dirs >>= search_paths name err_on_not_found
