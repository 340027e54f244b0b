-- ===== src/Flow/Label.antt =====
-- What the label of a flow depends on.
use logging_operator.Base.{Text, ◌≡◌, refl, ap, List, [], ◌∷◌, ◌++◌, append_assoc}
use mathlib.Core.List.{Perm}
use logging_operator.Base.Assoc.{Assoc, keys}
use logging_operator.Base.Assoc.Laws.{SameMap, sorted_keys_eq}
use logging_operator.Base.Sort.{sort_strings}
use logging_operator.Base.Sort.Laws.{sort_strings-eq_of_perm}
use logging_operator.Flow.{
  FlowMatch, index, write_labels, write_match, write_matches, label_input, calculate_flow_label,
}

-- The same namespaces in any order, and the same labels; the rest of a match may differ.
pub record SameSelection (m n : FlowMatch) : Type 0 where
  pub namespaces : Perm m.namespaces n.namespaces
  pub labels : SameMap m.labels n.labels

abbrev pub SameSelections : List FlowMatch → List FlowMatch → Type 0
SameSelections [] [] = Unit
SameSelections (m ∷ ms) (n ∷ ns) = SameSelection m n × SameSelections ms ns
SameSelections _ _ = ⊥

pub index-SameMap : {p q : Assoc Text} (k : Text) → SameMap p q → index p k ≡ index q k
unfolding index
index-SameMap k s = rw (index, s.values k) refl

write_labels-SameMap :
    {p q : Assoc Text} (ks : List Text) → SameMap p q → write_labels p ks ≡ write_labels q ks
unfolding write_labels
write_labels-SameMap [] s = refl
write_labels-SameMap (k ∷ ks) s = cc (index-SameMap k s, write_labels-SameMap ks s)

write_match-SameSelection : {m n : FlowMatch} → SameSelection m n → write_match m ≡ write_match n
unfolding write_match
write_match-SameSelection {m} {n} s = cc (
  sort_strings-eq_of_perm s.namespaces,
  sorted_keys_eq s.labels,
  write_labels-SameMap (sort_strings (keys n.labels)) s.labels,
)

write_matches-SameSelections :
    (ms ns : List FlowMatch) → SameSelections ms ns → write_matches ms ≡ write_matches ns
unfolding write_matches
write_matches-SameSelections [] [] s = refl
write_matches-SameSelections [] (n ∷ ns) s = absurd s
write_matches-SameSelections (m ∷ ms) [] s = absurd s
write_matches-SameSelections (m ∷ ms) (n ∷ ns) (s, ss) =
    cc (write_match-SameSelection s, write_matches-SameSelections ms ns ss)

-- Two flows get the same label if the concatenation of name and namespace is the same, and their
-- matches have pairwise the same labels, in any order of iteration, and the same namespaces, in any
-- order. The containers, the hosts and the negation of a match do not show in the label.
pub calculate_flow_label_same :
    (md5 : Text → Text) (ms ns : List FlowMatch) (name namespace name' namespace' : Text)
    → SameSelections ms ns
    → name ++ namespace ≡ name' ++ namespace'
    → calculate_flow_label md5 ms name namespace ≡ calculate_flow_label md5 ns name' namespace'
unfolding calculate_flow_label label_input
calculate_flow_label_same md5 ms ns name namespace name' namespace' s e =
    let inputs : name ++ (namespace ++ write_matches ms)
        ≡ name' ++ (namespace' ++ write_matches ns) =
      cc (
        append_assoc name namespace (write_matches ms),
        append_assoc name' namespace' (write_matches ns),
        e,
        write_matches-SameSelections ms ns s,
      ) in
    ap (λ t. b'@' ∷ md5 t) inputs
