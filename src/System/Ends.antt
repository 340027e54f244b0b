-- ===== src/System/Ends.antt =====
-- What the registrations of the default flow and of the error flow do.
use mathlib.Core.List.{Nodup}
use logging_operator.Base.{
  Text, codes, ◌==◌, ◌≡◌, refl, sym, ◌∙◌, false, Option, none, some, List, [], ◌∷◌, ◌++◌,
  append_assoc, arith, Bool-cases, inl, inr,
}
use logging_operator.Base.Assoc.{Assoc, lookup, insert, lookup-insert}
use logging_operator.Flow.{Flow}
use logging_operator.Router.{
  SystemBuilder, has_label, finish_default, register_error_flow, register_default_flow,
}
use logging_operator.Router.Labels.{labels, Nodup-append_flow}
use logging_operator.System.Create.{ok, after}
use logging_operator.System.Finish.{each, onto-some, map-some, unset_flow}

-- What the last two registrations do: flows are added, and no route.
pub record Ends (a : SystemBuilder) (fs : List Flow) (b : SystemBuilder) : Type 0 where
  pub flows : b.flows ≡ a.flows ++ fs
  pub routes : b.router.routes ≡ a.router.routes
  pub distinct : Nodup (labels a.flows) → Nodup (labels b.flows)

default_params :
    (l b : Text) (m : Assoc Text)
    → lookup
        (codes "default_route")
        (insert (codes "default_metrics_labels") b (insert (codes "default_route") l m))
      ≡ some l
default_params l b m = rw (lookup-insert, lookup-insert) (unfold codes ◌==◌ in refl)

add_end :
    (a b : SystemBuilder) (f : Flow)
    → has_label f.flow_label a.flows ≡ false
    → b.flows ≡ a.flows ++ f ∷ []
    → b.router.routes ≡ a.router.routes
    → Ends a (f ∷ []) b
add_end a b f fresh flows routes = record {
  flows = flows;
  routes = routes;
  distinct = λ h. rw flows (Nodup-append_flow a.flows f fresh h);
}

finish_default_params :
    (o : Option Text) (l : Text) (s b : SystemBuilder) (m : Assoc Text)
    → s.router.params ≡ insert (codes "default_route") l m
    → after (finish_default o s) ≡ ok b
    → lookup (codes "default_route") b.router.params ≡ some l
unfolding after finish_default
finish_default_params none l s b m e h = absurd (cc)
finish_default_params (some v) l s b m e h = cc (h, e, default_params l v m)

pub register_default_flow-Ends :
    (marshal : Assoc Text → Option Text) (a b : SystemBuilder) (f : Flow)
    → after (register_default_flow marshal a f) ≡ ok b
    → Ends a (f ∷ []) b × (lookup (codes "default_route") b.router.params ≡ some f.flow_label)
unfolding after register_default_flow
register_default_flow-Ends marshal a b f h = elim (Bool-cases (has_label f.flow_label a.flows)) [
  | inl p ↦ absurd (ground arith)
  | inr p ↦ (
    add_end a b f p (ground arith) (ground arith),
    finish_default_params (marshal ((codes "id", f.flow_id) ∷ [])) f.flow_label _ b a.router.params
        refl (rw p at h),
  )
]

pub register_error_flow-Ends :
    (a b : SystemBuilder) (f : Flow)
    → after (register_error_flow a f) ≡ ok b
    → Ends a (f ∷ []) b × (b.router ≡ a.router)
unfolding after register_error_flow
register_error_flow-Ends a b f h = elim (Bool-cases (has_label f.flow_label a.flows)) [
  | inl p ↦ absurd (ground arith)
  | inr p ↦ (add_end a b f p (ground arith) (ground arith), ground arith)
]

some_injective : {A : Type 0} {a b : A} → some a ≡ some b → a ≡ b
some_injective e = cc

unset_flow_label : (f g : Flow) → unset_flow f ≡ some g → g.flow_label ≡ f.flow_label
unfolding unset_flow
unset_flow_label f g h = let (outputs, e, same) = map-some _ _ g h in rw same refl

pub labels-unset : (fs gs : List Flow) → each unset_flow fs ≡ some gs → labels gs ≡ labels fs
unfolding each
labels-unset [] gs h = rw (sym (some_injective h)) refl
labels-unset (f ∷ fs) gs h =
    let (g, r, made, rest, e) = onto-some (unset_flow f) (each unset_flow fs) gs h in
    rw e (cc (unset_flow_label f g made, labels-unset fs r rest))

-- The flows, behind two registrations
pub flows_chain :
    (a b2 b3 b : SystemBuilder) (fs ds es : List Flow)
    → a.flows ≡ []
    → b2.flows ≡ a.flows ++ fs
    → b3.flows ≡ b2.flows ++ ds
    → b.flows ≡ b3.flows ++ es
    → b.flows ≡ fs ++ (ds ++ es)
flows_chain a b2 b3 b fs ds es e0 e2 e3 e4 = e4 ∙ rw (e3, e2, e0) (append_assoc fs ds es)
