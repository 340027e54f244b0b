-- ===== src/System/Progress.antt =====
-- When the loops over flows go through.
use logging_operator.Base.{
  Text, ◌≡◌, refl, sym, ap, ◌∙◌, Bool, false, Option, some, List, [], ◌∷◌, ◌++◌, map, append_assoc,
  append-nil,
}
use logging_operator.Base.Assoc.{Assoc}
use logging_operator.Flow.{Flow}
use logging_operator.Router.{SystemBuilder, has_label, add_route, register_flow}
use logging_operator.System.{Made}
use logging_operator.System.Create.{Outcome, ok, ◌>>=◌, after, add_flow, add_flows}

-- Flows that were made without errors
abbrev pub without_errors : List Flow → List (Made (Option Flow))
without_errors fs = map (λ f. (some f, [])) fs

-- The label of each flow is not among those of the flows before it.
abbrev pub HasNewLabels : List Flow → List Flow → Type 0
HasNewLabels seen [] = Unit
HasNewLabels seen (f ∷ fs) =
    (has_label f.flow_label seen ≡ false) × HasNewLabels (seen ++ f ∷ []) fs

module _ (marshal : Assoc Text → Option Text) (skip : Bool) where
  abbrev with_flow : SystemBuilder → Flow → SystemBuilder
  with_flow a f = record a { flows = a.flows ++ f ∷ []; router = add_route marshal a.router f }

  add_new_flow :
      (a : SystemBuilder) (f : Flow)
      → has_label f.flow_label a.flows ≡ false
      → add_flow marshal skip (some f, []) a ≡ ok (with_flow a f)
  unfolding add_flow register_flow after
  add_new_flow a f new = rw new refl

  -- All the flows are registered, in order, behind those of the builder.
  pub record IsRegistered (a : SystemBuilder) (fs : List Flow) (result : Outcome SystemBuilder)
      : Type 0 where
    pub builder : SystemBuilder
    pub returned : result ≡ ok builder
    pub flows : builder.flows ≡ a.flows ++ fs

  -- Flows that were made without errors, and each of whose labels is not among those of the builder
  -- and of the flows before it, are all registered, whatever `skipInvalidResources` says: the loop
  -- ends with no error, and the builder has its flows and then these, in order.
  pub add_flows-IsRegistered :
      (fs : List Flow) (a : SystemBuilder)
      → HasNewLabels a.flows fs
      → IsRegistered a fs (add_flows marshal skip (without_errors fs) a)
  unfolding add_flows
  add_flows-IsRegistered [] a h = record {
    builder = a;
    returned = refl;
    flows = sym (append-nil a.flows);
  }
  add_flows-IsRegistered (f ∷ fs) a (new, h) =
      let rest = add_flows-IsRegistered fs (with_flow a f) h in
      record {
        builder = rest.builder;
        returned =
            ap (λ o. o >>= add_flows marshal skip (without_errors fs)) (add_new_flow a f new)
            ∙ rest.returned;
        flows = rest.flows ∙ append_assoc a.flows (f ∷ []) fs;
      }
