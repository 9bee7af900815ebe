-- ===== src/Registry.antt =====
-- utils/fqcn/fqcn.go, modules/moduleRegistry.go and plugins/actions.go: names of modules and of
-- action plugins, and the maps in which they are registered.
pub mod Names
use gosible.Base.{Bool, true, false, Option, none, some, List, [], ◌∷◌, ◌++◌, if◌then◌else◌}
use gosible.GoText.{Str, codes, contains_byte}
use gosible.Dict.{Dict, lookup, insert}

unfoldable pub to_internal_fqcns : Str → List Str
to_internal_fqcns name =
    if contains_byte b'.' name
    then name ∷ []
    else name ∷ (codes "ansible.builtin." ++ name) ∷ (codes "ansible.legacy." ++ name) ∷ []

module _ {ℓ} {M : Type ℓ} where
  unfoldable pub register_all : List Str → M → Dict M → Dict M
  register_all [] m registry = registry
  register_all (n ∷ ns) m registry = register_all ns m (insert n m registry)

  -- `RegisterModuleFn`, and `RegisterAction`
  unfoldable pub register : Str → M → Dict M → Dict M
  unfolding to_internal_fqcns register_all
  register name m registry = register_all (to_internal_fqcns name) m registry

  -- `FindModule`, and `FindAction`
  unfoldable pub find : Dict M → Str → Option M
  find registry name = lookup name registry
