-- ===== src/Flow.antt =====
-- pkg/sdk/logging/model/types/flow.go and the `FlowMatch` of router.go. MD5 is a parameter: it reads
-- the bytes that are written to the hash one after the other. Such a hash never returns an error.
pub mod Label
pub mod Match
use logging_operator.Base.{
  ℕ, zero, suc, Text, codes, is_empty, join, Bool, true, false, Option, none, some, List, [], ◌∷◌,
  ◌++◌, map, if◌then◌else◌,
}
use logging_operator.Base.Assoc.{Assoc, lookup, keys}
use logging_operator.Base.Sort.{sort_strings}
use logging_operator.Directive.{
  PluginMeta, meta_of, Params, Directive, custom, Directives, nil, to_directives,
  new_copy_directive,
}

pub record FlowMatch : Type 0 where
  pub labels : Assoc Text
  pub namespaces : List Text
  pub container_names : List Text
  pub hosts : List Text
  pub negate : Bool

pub record Flow : Type 0 where
  pub plugin_meta : PluginMeta
  pub flow_id : Text
  pub filters : List Directive
  pub outputs : List Directive
  pub matches : List FlowMatch
  pub flow_label : Text

-- `m[k]` of a `map[string]string`: "" where there is no such key
unfoldable pub index : Assoc Text → Text → Text
unfolding lookup
index m k = elim (lookup k m) [ none ↦ [] | some v ↦ v ]

-- `strconv.FormatBool`
unfoldable pub format_bool : Bool → Text
format_bool true = codes "true"
format_bool false = codes "false"

label_pairs : Assoc Text → List Text → List Text
unfolding index
label_pairs m [] = []
label_pairs m (k ∷ ks) = (k ++ b':' ∷ index m k) ∷ label_pairs m ks

-- A list goes in, joined by commas, unless it is empty.
joined_param : Text → List Text → Params
unfolding join
joined_param key [] = []
joined_param key (x ∷ xs) = (key, join (x ∷ xs) (codes ",")) ∷ []

label_param : Assoc Text → Params
unfolding joined_param label_pairs sort_strings
label_param [] = []
label_param (kv ∷ m) =
    (codes "labels", join (label_pairs (kv ∷ m) (sort_strings (keys (kv ∷ m)))) (codes ",")) ∷ []

-- `FlowMatch.GetParams`
match_params : FlowMatch → Params
unfolding joined_param label_param format_bool
match_params f =
    (codes "negate", format_bool f.negate)
    ∷ (joined_param (codes "namespaces") f.namespaces
        ++ (joined_param (codes "container_names") f.container_names
            ++ (joined_param (codes "hosts") f.hosts ++ label_param f.labels)))

-- A `FlowMatch` as a directive
pub match_directive : FlowMatch → Directive
unfolding match_params
match_directive f = custom (meta_of (codes "match")) (match_params f) nil

-- More than one output is one `copy`.
output_sections : List Directive → List Directive
unfolding new_copy_directive
output_sections (o ∷ p ∷ os) = new_copy_directive (o ∷ p ∷ os) ∷ []
output_sections os = os

-- `Flow.GetSections`
flow_sections : Flow → List Directive
unfolding output_sections
flow_sections f = f.filters ++ output_sections f.outputs

-- A `*Flow` as a directive: its parameters are nil.
unfoldable pub flow_directive : Flow → Directive
unfolding flow_sections
flow_directive f = custom f.plugin_meta [] (to_directives (flow_sections f))

unfoldable pub with_filters : Flow → List Directive → Flow
with_filters f filters = record f { filters = f.filters ++ filters }

unfoldable pub with_outputs : Flow → List Directive → Flow
with_outputs f outputs = record f { outputs = f.outputs ++ outputs }

concat : List Text → Text
concat [] = []
concat (t ∷ ts) = t ++ concat ts

-- What is written for the sorted keys of a match: each key and its value.
write_labels : Assoc Text → List Text → Text
unfolding index
write_labels m [] = []
write_labels m (k ∷ ks) = k ++ (index m k ++ write_labels m ks)

-- The namespaces are sorted in place, so the flow keeps them sorted.
unfoldable pub sort_namespaces : FlowMatch → FlowMatch
unfolding sort_strings
sort_namespaces m = record m { namespaces = sort_strings m.namespaces }

write_match : FlowMatch → Text
unfolding concat sort_strings write_labels
write_match m =
    concat (sort_strings m.namespaces) ++ write_labels m.labels (sort_strings (keys m.labels))

write_matches : List FlowMatch → Text
unfolding write_match
write_matches [] = []
write_matches (m ∷ ms) = write_match m ++ write_matches ms

-- The bytes that `calculateFlowLabel` writes to the hash
label_input : List FlowMatch → Text → Text → Text
unfolding write_matches
label_input matches name namespace = name ++ (namespace ++ write_matches matches)

-- `calculateFlowLabel`; the argument `md5` is the sum in hexadecimal digits
pub calculate_flow_label : (Text → Text) → List FlowMatch → Text → Text → Text
unfolding label_input
calculate_flow_label md5 matches name namespace = b'@' ∷ md5 (label_input matches name namespace)

unfoldable pub new_flow : (Text → Text) → List FlowMatch → Text → Text → Text → Flow
unfolding calculate_flow_label sort_namespaces
new_flow md5 matches id name namespace =
    let flow_label = calculate_flow_label md5 matches name namespace in
    record {
      plugin_meta = record (meta_of (codes "label")) { tag = flow_label };
      flow_id = id;
      filters = [];
      outputs = [];
      matches = map sort_namespaces matches;
      flow_label = flow_label;
    }
