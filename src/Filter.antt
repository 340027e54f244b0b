-- ===== src/Filter.antt =====
-- pkg/sdk/logging/model/filter: the filters, each in a module of its own, and the head of the directives
-- that they are made into.
pub mod Stdout
pub mod Dedot
pub mod KubeEventsTimestamp
pub mod Tagnormaliser
pub mod Throttle
pub mod ElasticsearchGenid
pub mod DetectExceptions
pub mod EnhanceK8s
pub mod Sumologic
pub mod Grep
pub mod Record
pub mod RecordTransformer
pub mod Geoip
pub mod RecordModifier
pub mod Concat
pub mod Prometheus
use logging_operator.Base.{Text, codes}
use logging_operator.Directive.{PluginMeta, meta_of}

unfoldable pub filter_meta : Text → Text → PluginMeta
filter_meta type id = record (meta_of (codes "filter")) { type = type; tag = codes "**"; id = id }

-- The plugins that emit events again match those of Kubernetes.
unfoldable pub rewriting_meta : Text → Text → PluginMeta
rewriting_meta type id = record (meta_of (codes "match")) {
  type = type;
  tag = codes "kubernetes.**";
  id = id;
}
