-- ===== src/Directive.antt =====
-- pkg/sdk/logging/model/types/types.go: the directives of a fluentd configuration.
pub mod Copy
use logging_operator.Base.{Text, codes, List, [], ◌∷◌, ◌==◌, if◌then◌else◌}
use logging_operator.Base.Assoc.{Assoc}

pub record PluginMeta : Type 0 where
  pub type : Text
  pub id : Text
  pub log_level : Text
  pub directive : Text
  pub label : Text
  pub tag : Text

-- `PluginMeta{Directive: name}`: the other fields are empty.
abbrev pub meta_of : Text → PluginMeta
meta_of name = record { type = []; id = []; log_level = []; directive = name; label = []; tag = [] }

abbrev pub Params : Type 0
Params = Assoc Text

-- A value of the interface: nil, a `*GenericDirective`, or what the methods of another type return.
mutual
  pub data Directive : Type 0 where
    absent : Directive
    generic : PluginMeta → Params → Directives → Directive
    custom : PluginMeta → Params → Directives → Directive

  pub data Directives : Type 0 where
    nil : Directives
    cons : Directive → Directives → Directives

abbrev pub to_directives : List Directive → Directives
to_directives [] = nil
to_directives (d ∷ ds) = cons d (to_directives ds)

abbrev pub to_list : Directives → List Directive
to_list nil = []
to_list (cons d ds) = d ∷ to_list ds

-- The methods are called on directives that are there; on nil they return what is empty.
get_plugin_meta : Directive → PluginMeta
get_plugin_meta absent = meta_of []
get_plugin_meta (generic meta params sections) = meta
get_plugin_meta (custom meta params sections) = meta

get_params : Directive → Params
get_params absent = []
get_params (generic meta params sections) = params
get_params (custom meta params sections) = params

get_sections : Directive → Directives
get_sections absent = nil
get_sections (generic meta params sections) = sections
get_sections (custom meta params sections) = sections

-- The `store` section that takes the place of an output under `copy`.
pub store_section : Directive → Directive
unfolding get_plugin_meta get_params get_sections
store_section d =
    generic
      (record (meta_of (codes "store")) {
        type = (get_plugin_meta d).type;
        id = (get_plugin_meta d).id;
        log_level = (get_plugin_meta d).log_level;
      })
      (get_params d) (get_sections d)

store_sections : List Directive → Directives
store_sections [] = nil
store_sections (d ∷ ds) = cons (store_section d) (store_sections ds)

unfoldable pub new_copy_directive : List Directive → Directive
unfolding store_sections
new_copy_directive directives =
    generic (record (meta_of (codes "match")) { type = codes "copy"; tag = codes "**" }) []
      (store_sections directives)

-- `GetLogKey` for a container runtime
unfoldable pub get_log_key : Text → Text
get_log_key runtime =
    if runtime == codes "docker"
    then codes "log"
    else if runtime == codes "containerd"
    then codes "message"
    else codes "message"
