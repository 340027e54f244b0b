-- ===== src/Flow/Match.antt =====
-- The parameters of a match do not show the order in which its labels are iterated.
use mathlib.Core.List.Perm
use logging_operator.Base.{Text, ◌≡◌, refl, List, [], ◌∷◌}
use logging_operator.Base.Assoc.{Assoc, keys}
use logging_operator.Base.Assoc.Laws.{SameMap, keys-perm, sorted_keys_eq}
use logging_operator.Base.Sort.{sort_strings}
use logging_operator.Flow.{FlowMatch, label_pairs, label_param, match_params, match_directive}
use logging_operator.Flow.Label.{index-SameMap}

label_pairs-SameMap :
    {p q : Assoc Text} (ks : List Text) → SameMap p q → label_pairs p ks ≡ label_pairs q ks
unfolding label_pairs
label_pairs-SameMap [] s = refl
label_pairs-SameMap (k ∷ ks) s = cc (index-SameMap k s, label_pairs-SameMap ks s)

label_param-SameMap : (p q : Assoc Text) → SameMap p q → label_param p ≡ label_param q
unfolding label_param
label_param-SameMap [] [] s = refl
label_param-SameMap [] ((k, v) ∷ q) s = absurd (cc (Perm.nil-eq (keys-perm s)))
label_param-SameMap ((k, v) ∷ p) [] s = absurd (cc (Perm.eq-nil (keys-perm s)))
label_param-SameMap ((k, v) ∷ p) ((j, w) ∷ q) s =
    cc (sorted_keys_eq s, label_pairs-SameMap (sort_strings (keys ((j, w) ∷ q))) s)

-- Two matches that differ only in the order in which their labels are iterated give one directive.
pub match_directive-SameMap :
    (f : FlowMatch) (labels : Assoc Text)
    → SameMap f.labels labels
    → match_directive f ≡ match_directive (record f { labels = labels })
unfolding match_directive match_params
match_directive-SameMap f labels s = rw (label_param-SameMap f.labels labels s) refl
