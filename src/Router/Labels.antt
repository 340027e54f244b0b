-- ===== src/Router/Labels.antt =====
-- The labels of the registered flows are distinct, and the router has a route for each of them.
use mathlib.Core.List.{
  Mem, Nodup, mem-cons, mem-cons_self, mem-cons_of_mem, not-mem-nil, Nodup-concat, concat-eq-append,
}
use mathlib.Core.HLevel.{⊥_prop}
use mathlib.Core.Logic.Or
use logging_operator.Base.{
  Text, ◌==◌, eq_iff, ◌≡◌, refl, sym, ap, true, false, List, [], ◌∷◌, ◌++◌, arith, Bool-cases, inl,
  inr,
}
use logging_operator.Flow.{Flow}
use logging_operator.Router.{has_label}

abbrev pub labels : List Flow → List Text
labels [] = []
labels (f ∷ fs) = f.flow_label ∷ labels fs

pub labels-append : (fs gs : List Flow) → labels (fs ++ gs) ≡ labels fs ++ labels gs
labels-append [] gs = refl
labels-append (f ∷ fs) gs = ap (◌∷◌ f.flow_label) (labels-append fs gs)

has_label-mem : (l : Text) (fs : List Flow) → has_label l fs ≡ true → Mem l (labels fs)
unfolding has_label
has_label-mem l [] h = absurd (cc)
has_label-mem l (f ∷ fs) h = elim (Bool-cases (f.flow_label == l)) [
  | inl p ↦ rw ((eq_iff f.flow_label l).0 p) mem-cons_self
  | inr p ↦ mem-cons_of_mem f.flow_label (has_label-mem l fs (rw p at h))
]

mem-has_label : (l : Text) (fs : List Flow) → has_label l fs ≡ false → ¬ Mem l (labels fs)
unfolding has_label
mem-has_label l [] h m = not-mem-nil m
mem-has_label l (f ∷ fs) h m = elim (Bool-cases (f.flow_label == l)) [
  | inl p ↦ absurd (ground arith)
  | inr p ↦
      Or.elim ⊥_prop (mem-cons.0 m) (λ e. cc (p, (eq_iff f.flow_label l).1 (sym e)))
        (mem-has_label l fs (ground arith))
]

-- A flow whose label is new keeps the labels distinct.
pub Nodup-append_flow :
    (fs : List Flow) (f : Flow)
    → has_label f.flow_label fs ≡ false
    → Nodup (labels fs)
    → Nodup (labels (fs ++ f ∷ []))
Nodup-append_flow fs f fresh distinct =
    rw (labels-append fs (f ∷ []), ← concat-eq-append (labels fs) f.flow_label)
      ((Nodup-concat (labels fs) f.flow_label).1 (mem-has_label f.flow_label fs fresh, distinct))
