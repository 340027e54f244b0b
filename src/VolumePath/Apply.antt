-- ===== src/VolumePath/Apply.antt =====
-- `Apply` of a function that reads only the element at the index.
use logging_operator.Base.{
  suc, Text, ◌≡◌, refl, ap, Option, some, List, [], ◌∷◌, ◌++◌, append_assoc, arith,
}
use logging_operator.Base.Lists.{length, length-append, get_elem?-append}
use logging_operator.VolumePath.{prepend, apply_loop, apply, at}

-- What the function returns of each element, where it returns something
unfoldable pub collect : (Text → Option Text) → List Text → List Text
unfolding prepend
collect f [] = []
collect f (x ∷ xs) = prepend (f x) (collect f xs)

at-elem :
    (f : Text → Option Text) (pre : List Text) (x : Text) (rest : List Text)
    → at f (pre ++ x ∷ rest) (length pre) ≡ f x
unfolding at
at-elem f pre x rest = rw (at, get_elem?-append pre x rest) refl

apply_loop-from :
    (f : Text → Option Text) (pre rest : List Text)
    → apply_loop (at f) (pre ++ rest) (length pre) rest ≡ collect f rest
unfolding apply_loop collect
apply_loop-from f pre [] = refl
apply_loop-from f pre (x ∷ rest) =
    let lists : (pre ++ x ∷ []) ++ rest ≡ pre ++ x ∷ rest = append_assoc pre (x ∷ []) rest in
    let index : length (pre ++ x ∷ []) ≡ suc (length pre) =
      omega (arith, length-append pre (x ∷ [])) in
    let later : apply_loop (at f) (pre ++ x ∷ rest) (suc (length pre)) rest ≡ collect f rest =
      cc (lists, index, apply_loop-from f (pre ++ x ∷ []) rest) in
    cc (at-elem f pre x rest, later)

-- `Apply` of such a function collects what it returns, in order.
pub apply-at :
    (f : Text → Option Text) (l : List Text) → apply (some (at f)) (some l) ≡ some (collect f l)
unfolding apply
apply-at f l = ap some (apply_loop-from f [] l)
