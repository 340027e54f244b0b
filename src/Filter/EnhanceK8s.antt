-- ===== src/Filter/EnhanceK8s.antt =====
-- enhance_k8s.go of pkg/sdk/logging/model/filter.
use logging_operator.Base.{Text, codes, Bool, Option, List, [], ◌∷◌, ◌⊎◌}
use logging_operator.Base.Int.{ℤ}
use logging_operator.Directive.{Directive}
use logging_operator.StringsMap.{Json, strings, Field, FieldFault, SecretLoader}
use logging_operator.StringsMap.Tagged.{tagged, text_value, int_value, bool_pointer, struct_value}
use logging_operator.StringsMap.Fields.{new_flat_directive}
use logging_operator.Filter.{filter_meta}

pub record EnhanceK8s (S : Type 0) : Type 0 where
  pub in_namespace_path : Option (List Text)
  pub in_pod_path : Option (List Text)
  pub data_type : Text
  pub kubernetes_url : Text
  pub client_cert : Option S
  pub client_key : Option S
  pub ca_file : Option S
  pub secret_dir : Text
  pub bearer_token_file : Text
  pub verify_ssl : Option Bool
  pub core_api_versions : Option (List Text)
  pub api_groups : Option (List Text)
  pub ssl_partial_chain : Option Bool
  pub cache_size : ℤ
  pub cache_ttl : ℤ
  pub cache_refresh : ℤ
  pub cache_refresh_variation : ℤ

unfoldable pub enhance_k8s_fields : {S : Type 0} → EnhanceK8s S → List (Field S)
unfolding bool_pointer int_value struct_value tagged text_value
enhance_k8s_fields x =
    tagged "InNamespacePath" "in_namespace_path,omitempty" (strings x.in_namespace_path)
    ∷ tagged "InPodPath" "in_pod_path,omitempty" (strings x.in_pod_path)
    ∷ tagged "DataType" "data_type,omitempty" (text_value x.data_type)
    ∷ tagged "KubernetesUrl" "kubernetes_url,omitempty" (text_value x.kubernetes_url)
    ∷ tagged "ClientCert" "client_cert,omitempty" (struct_value x.client_cert)
    ∷ tagged "ClientKey" "client_key,omitempty" (struct_value x.client_key)
    ∷ tagged "CaFile" "ca_file,omitempty" (struct_value x.ca_file)
    ∷ tagged "SecretDir" "secret_dir,omitempty" (text_value x.secret_dir)
    ∷ tagged "BearerTokenFile" "bearer_token_file,omitempty" (text_value x.bearer_token_file)
    ∷ tagged "VerifySSL" "verify_ssl,omitempty" (bool_pointer x.verify_ssl)
    ∷ tagged "CoreAPIVersions" "core_api_versions,omitempty" (strings x.core_api_versions)
    ∷ tagged "APIGroups" "api_groups,omitempty" (strings x.api_groups)
    ∷ tagged "SSLPartialChain" "ssl_partial_chain,omitempty" (bool_pointer x.ssl_partial_chain)
    ∷ tagged "CacheSize" "cache_size,omitempty" (int_value x.cache_size)
    ∷ tagged "CacheTTL" "cache_ttl,omitempty" (int_value x.cache_ttl)
    ∷ tagged "CacheRefresh" "cache_refresh,omitempty" (int_value x.cache_refresh)
    ∷ tagged "CacheRefreshVariation" "cache_refresh_variation,omitempty"
        (int_value x.cache_refresh_variation)
    ∷ []

-- `EnhanceK8s.ToDirective`
unfoldable pub enhance_k8s_to_directive :
    {S : Type 0}
    → Json
    → Option (SecretLoader S)
    → Text
    → EnhanceK8s S
    → Directive ⊎ List FieldFault
unfolding new_flat_directive filter_meta
enhance_k8s_to_directive json loader id x =
    new_flat_directive json (filter_meta (codes "enhance_k8s_metadata") id) (enhance_k8s_fields (x))
      loader
