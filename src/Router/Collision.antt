-- ===== src/Router/Collision.antt =====
-- Two resources whose flows get one label cannot be registered together.
use logging_operator.Base.{
  Text, eq_iff, ◌≡◌, refl, sym, ap, ◌∙◌, true, Option, some, List, [], ◌∷◌, ◌++◌, arith, Bool-cases,
  inl, inr,
}
use logging_operator.Base.Assoc.{Assoc}
use logging_operator.Flow.{FlowMatch, Flow, new_flow, calculate_flow_label}
use logging_operator.Flow.Label.{SameSelections, calculate_flow_label_same}
use logging_operator.Router.{
  SystemBuilder, registered, refused, flow_exists, has_label, register_flow,
}

has_label-append :
    (l : Text) (fs : List Flow) (f : Flow) → f.flow_label ≡ l → has_label l (fs ++ f ∷ []) ≡ true
unfolding has_label
has_label-append l [] f e = rw ((eq_iff f.flow_label l).1 e) refl
has_label-append l (g ∷ fs) f e = ground (arith, has_label-append l fs f e)

registered_label :
    (marshal : Assoc Text → Option Text) (a b : SystemBuilder) (f : Flow)
    → register_flow marshal a (some f) ≡ registered b
    → has_label f.flow_label b.flows ≡ true
unfolding register_flow
registered_label marshal a b f h = elim (Bool-cases (has_label f.flow_label a.flows)) [
  | inl p ↦ absurd (ground arith)
  | inr p ↦ ground (arith, has_label-append f.flow_label a.flows f refl)
]

-- After a flow, the flow of another resource is refused, with the builder unchanged, if name and
-- namespace of the two read the same one after the other and their matches select the same labels
-- and namespaces; they need not be the same resource, nor have the same containers or hosts.
pub register_flow_collision :
    (marshal : Assoc Text → Option Text) (md5 : Text → Text) (a b : SystemBuilder)
    (ms ns : List FlowMatch) (id id' name namespace name' namespace' : Text)
    → SameSelections ms ns
    → name ++ namespace ≡ name' ++ namespace'
    → register_flow marshal a (some (new_flow md5 ms id name namespace)) ≡ registered b
    → register_flow marshal b (some (new_flow md5 ns id' name' namespace')) ≡ refused flow_exists b
unfolding register_flow new_flow
register_flow_collision marshal md5 a b ms ns id id' name namespace name' namespace' s e h =
    let label = calculate_flow_label_same md5 ms ns name namespace name' namespace' s e in
    let there = registered_label marshal a b (new_flow md5 ms id name namespace) h in
    let taken : has_label (calculate_flow_label md5 ns name' namespace') b.flows ≡ true =
      ap (λ l. has_label l b.flows) (sym label) ∙ there in
    rw taken refl
