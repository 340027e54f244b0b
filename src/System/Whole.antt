-- ===== src/System/Whole.antt =====
-- The flows and the routes of a system that `CreateSystem` returns.
use mathlib.Core.List.{Nodup}
use logging_operator.Base.{
  Text, codes, ◌≡◌, refl, subst, Option, none, some, List, [], ◌∷◌, arith, Bool-cases, inl, inr,
  true, false, ℕ, ◌<◌, ◌≤◌,
}
use logging_operator.Base.Int.{ℤ}
use logging_operator.Directive.{Directive}
use logging_operator.StringsMap.{Json, SecretLoader}
use logging_operator.Flow.{Flow, format_bool}
use logging_operator.Router.{System, build, new_router, new_system_builder}
use logging_operator.Router.Labels.{labels}
use logging_operator.System.Create.{
  ok, ◌>>=◌, of_pointer, register_all, system_with, root_input_of, global_filters_of, create_for,
  create_system,
}
use logging_operator.System.Logging.{FluentdSpec, LoggingResources}
use logging_operator.System.Finish.{finish, several, map-some}
use logging_operator.System.Ends.{labels-unset}
use logging_operator.System.Paths.{Pairwise, IsPathless, unset_flows-Pairwise}
use logging_operator.System.Registered.{HasFlowsOf, register_all-HasFlowsOf}
use logging_operator.System.Build.{>>=-eq-ok}

some_injective : {A : Type 0} {a b : A} → some a ≡ some b → a ≡ b
some_injective e = cc

of_pointer-some : {A : Type 0} (o : Option A) (a : A) → of_pointer o ≡ ok a → o ≡ some a
unfolding of_pointer
of_pointer-some none a h = absurd (cc)
of_pointer-some (some b) a h = cc

several-pos : (z : ℤ) → several z ≡ true → (n : ℕ) × (z ≡ ℤ.pos n) × (1 < n)
unfolding several
several-pos (ℤ.pos n) h = (n, refl, ground arith)
several-pos (ℤ.negsuc n) h = absurd (cc)

not_several-pos : (z : ℤ) → several z ≡ false → (n : ℕ) → z ≡ ℤ.pos n → n ≤ 1
unfolding several
not_several-pos z h n e = let few = rw e at h in ground arith

module _ {S : Type 0} (json : Json) (md5 : Text → Text) (secrets : Text → SecretLoader S) where
  -- What fluentd's workers make of the flows
  pub data Finished (fluentd : FluentdSpec) (fs gs : List Flow) : Type 0 where
    one_worker : ((n : ℕ) → fluentd.workers ≡ ℤ.pos n → n ≤ 1) → gs ≡ fs → Finished fluentd fs gs
    more_workers :
        (n : ℕ)
        → fluentd.workers ≡ ℤ.pos n
        → 1 < n
        → Pairwise IsPathless fs gs
        → Finished fluentd fs gs

  -- A system for the resources: that of the registrations, with the flows as they are finished
  pub record IsSystemOf (r : LoggingResources S) (s : System) : Type 0 where
    pub fluentd : FluentdSpec
    pub configured : r.logging.fluentd_spec ≡ some fluentd
    pub built : System
    pub registered : HasFlowsOf json md5 secrets r built
    pub flows : Finished fluentd built.flows s.flows
    pub distinct : Nodup (labels s.flows)
    pub router : s.router ≡ built.router

  finish-IsSystemOf :
      (r : LoggingResources S) (fluentd : FluentdSpec) (s t : System)
      → r.logging.fluentd_spec ≡ some fluentd
      → of_pointer (finish fluentd.workers s) ≡ ok t
      → HasFlowsOf json md5 secrets r s
      → IsSystemOf r t
  unfolding finish
  finish-IsSystemOf r fluentd s t configured e h = elim (Bool-cases (several fluentd.workers)) [
    | inl p ↦
        (let (fs, made, same) = map-some _ _ t (of_pointer-some _ t (rw p at e)) in
          rw same (record {
            fluentd = fluentd;
            configured = configured;
            built = s;
            registered = h;
            flows =
                (let (n, is, more) = several-pos fluentd.workers p in
                  more_workers n is more (unset_flows-Pairwise s.flows fs made));
            distinct = rw (labels-unset s.flows fs made) h.distinct;
            router = refl;
          }))
    | inr p ↦ subst (IsSystemOf r) (some_injective (of_pointer-some _ t (rw p at e))) (record {
      fluentd = fluentd;
      configured = configured;
      built = s;
      registered = h;
      flows = one_worker (not_several-pos fluentd.workers p) refl;
      distinct = h.distinct;
      router = refl;
    })
  ]

  system_with-IsSystemOf :
      (r : LoggingResources S) (fluentd : FluentdSpec) (input : Directive)
      (filters : List Directive) (s : System)
      → r.logging.fluentd_spec ≡ some fluentd
      → system_with json md5 secrets r fluentd input filters ≡ ok s
      → IsSystemOf r s
  unfolding system_with new_system_builder new_router
  system_with-IsSystemOf r fluentd input filters s configured h =
      let b0 =
        new_system_builder input filters
          (new_router (codes "main") ((codes "metrics", format_bool fluentd.metrics) ∷ [])) in
      let (b, h1, h2) =
        >>=-eq-ok (register_all json md5 secrets r b0)
          (λ b. of_pointer (finish fluentd.workers (build b))) h in
      finish-IsSystemOf r fluentd (build b) s configured h2
        (register_all-HasFlowsOf json md5 secrets r b0 b refl refl h1)

  create_for-IsSystemOf :
      (r : LoggingResources S) (fluentd : Option FluentdSpec) (s : System)
      → r.logging.fluentd_spec ≡ fluentd
      → create_for json md5 secrets r fluentd ≡ ok s
      → IsSystemOf r s
  unfolding create_for
  create_for-IsSystemOf r none s configured h = absurd (cc)
  create_for-IsSystemOf r (some fluentd) s configured h =
      let (input, h1, k1) =
        >>=-eq-ok (root_input_of json md5 secrets r fluentd)
          (λ input.
            global_filters_of json md5 secrets r >>= system_with json md5 secrets r fluentd input)
          h in
      let (filters, h2, k2) =
        >>=-eq-ok (global_filters_of json md5 secrets r)
          (system_with json md5 secrets r fluentd input) k1 in
      system_with-IsSystemOf r fluentd input filters s configured k2

  -- A system that `CreateSystem` returns has the flows that were made of the Flow and ClusterFlow
  -- resources, in their order, then the default flow if one is configured, then the error flow, and no
  -- others; with several workers they differ from those only in that the buffers of their outputs have
  -- no path. The labels of its flows are distinct; its router has one route for each of the former, in
  -- the same order, and none for the others; and the parameter `default_route` is the default flow's
  -- label.
  pub create_system-IsSystemOf :
      (r : LoggingResources S) (s : System)
      → create_system json md5 secrets r ≡ ok s
      → IsSystemOf r s
  unfolding create_system
  create_system-IsSystemOf r s h = create_for-IsSystemOf r r.logging.fluentd_spec s refl h
