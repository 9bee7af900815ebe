-- ===== src/Templating.antt =====
-- What the program uses of template/: `Templar.IsTemplate` and `Templar.Template` rest on the engine
-- github.com/jmolinski/gosible-templates, which is not in the repository, and are a parameter.
use gosible.Base.{Bool, Outcome}
use gosible.GoText.{Str}
use gosible.Values.{Value, Vars}

pub data TemplateError : Type 0 where
  template_failed : TemplateError

pub record Templar : Type 0 where
  pub is_template : Str → Bool
  -- `template.New(env).Template(s, template.NewOptions())`
  pub template : Vars → Str → Outcome TemplateError Value
