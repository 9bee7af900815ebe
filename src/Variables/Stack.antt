-- ===== src/Variables/Stack.antt =====
-- Sources of variables, one over another, as GetVars combines them.
use gosible.Base.{◌≡◌, refl, Option, none, some, List, [], ◌∷◌, ◌∙◌, ap, ◌++◌}
use gosible.GoText.{Str}
use gosible.Dict.{lookup}
use gosible.Dict.Laws.{IsUnique, or_else}
use gosible.Values.{Value, Vars}
use gosible.Variables.Gather.{combine_if}
use gosible.Variables.Unique.{IsUniqueIf, lookup_if, combine_if-IsUnique, lookup-combine_if}

-- The value in the first of the sources that has the name.
abbrev pub topmost : Str → List (Option Vars) → Option Value
topmost j [] = none
topmost j (source ∷ sources) = or_else (lookup_if j source) (topmost j sources)

-- `vars` has what the first of the sources has.
abbrev pub Combines : List (Option Vars) → Vars → Type 0
Combines sources vars = (j : Str) → lookup j vars ≡ topmost j sources

-- the sources combined onto `base`, from the last to the first
abbrev pub stack : Vars → List (Option Vars) → Vars
stack base [] = base
stack base (source ∷ sources) = combine_if (stack base sources) source

abbrev pub AllUnique : List (Option Vars) → Type 0
AllUnique [] = Unit
AllUnique (source ∷ sources) = IsUniqueIf source × AllUnique sources

pub stack-IsUnique :
    (base : Vars) (sources : List (Option Vars)) → IsUnique base → IsUnique (stack base sources)
stack-IsUnique base [] u = u
stack-IsUnique base (source ∷ sources) u =
    combine_if-IsUnique (stack base sources) source (stack-IsUnique base sources u)

pub or_else-none : (x : Option Value) → x ≡ or_else x none
or_else-none none = refl
or_else-none (some v) = refl

pub lookup-stack :
    (base : Vars) (sources : List (Option Vars))
    → IsUnique base
    → AllUnique sources
    → Combines (sources ++ some base ∷ []) (stack base sources)
lookup-stack base [] u us j = or_else-none (lookup j base)
lookup-stack base (source ∷ sources) u (v, us) j =
    lookup-combine_if j (stack base sources) source (stack-IsUnique base sources u) v
    ∙ ap (or_else (lookup_if j source)) (lookup-stack base sources u us j)

-- A source that comes first hides itself further down.
pub hidden :
    (e a b c d x : Option Value)
    → or_else e (or_else a (or_else b (or_else c (or_else e (or_else d (or_else e x))))))
      ≡ or_else e (or_else a (or_else b (or_else c (or_else d x))))
hidden none a b c d x = refl
hidden (some v) a b c d x = refl
