-- ===== src/Status/Validate.antt =====
-- An output without problems can be used.
use logging_operator.Base.{Text, ◌≡◌, Option, List, [], ◌∷◌, ◌++◌}
use logging_operator.StringsMap.{SecretLoader}
use logging_operator.Resources.{OutputSpec, Plugin, converters, create_output, to_create}
use logging_operator.Status.{Problem, secret_problems}

module _ {S : Type 0} (loader : SecretLoader S) where
  all_secret_problems : List (Plugin S) → List Problem
  all_secret_problems [] = []
  all_secret_problems (p ∷ ps) = secret_problems loader p.secrets ++ all_secret_problems ps

  -- One name for each configured plugin
  data Named : List Text → List (Plugin S) → Type 0 where
    named_nil : Named [] []
    named_cons :
        (n : Text) (p : Plugin S) {ns : List Text} {ps : List (Plugin S)}
        → Named ns ps
        → Named (n ∷ ns) (p ∷ ps)

  -- The spec has one plugin, whose secrets can all be loaded, and what is created of the spec is what
  -- this plugin makes.
  pub record IsUsable (spec : OutputSpec S) : Type 0 where
    pub plugin : Plugin S
    pub only : converters spec ≡ plugin ∷ []
    pub loads : secret_problems loader plugin.secrets ≡ []
    pub creates :
        (name : Text) (l : Option (SecretLoader S))
        → create_output spec name l ≡ to_create (plugin.to_directive l name)
