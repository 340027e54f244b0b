-- ===== src/Repository/Select.antt =====
-- Which resources of a list belong to a logging, and in which order.
use mathlib.Core.List.{Mem, Perm, filter, mem-filter}
use mathlib.Core.List.Perm
use mathlib.Core.List.Pairwise
use logging_operator.Base.{
  Text, ◌↔◌, ◌==◌, eq_iff, ◌≡◌, refl, ap, true, false, List, [], ◌∷◌, ◌⊎◌, inl, arith,
}
use logging_operator.Base.Sort.{sort_by}
use logging_operator.Base.Sort.Laws.{
  IsOrder, IsSorted, NoTies, sort_by-IsSorted, sort_by-perm, sort_by-eq_of_perm, text_lt-IsOrder,
  text_lt-antisym,
}
use logging_operator.Base.Filter.{decide, branch}
use logging_operator.Repository.{Keyed, less_by_namespaced_name, with_ref, select_items}

module _ {A : Type 0} (k : Keyed A) where
  less-asym :
      (a b : A) → less_by_namespaced_name k a b ≡ true → less_by_namespaced_name k b a ≡ false
  unfolding less_by_namespaced_name
  less-asym a b h = ground (
    arith,
    eq_iff (k.namespace a) (k.namespace b),
    eq_iff (k.namespace b) (k.namespace a),
    text_lt-IsOrder.asym (k.namespace a) (k.namespace b),
    text_lt-IsOrder.asym (k.name a) (k.name b),
  )

  less_trans :
      (a b c : A)
      → less_by_namespaced_name k b a ≡ false
      → less_by_namespaced_name k c b ≡ false
      → less_by_namespaced_name k c a ≡ false
  unfolding less_by_namespaced_name
  less_trans a b c h h' = ground (
    arith,
    eq_iff (k.namespace a) (k.namespace b),
    eq_iff (k.namespace b) (k.namespace a),
    eq_iff (k.namespace b) (k.namespace c),
    eq_iff (k.namespace c) (k.namespace b),
    eq_iff (k.namespace a) (k.namespace c),
    eq_iff (k.namespace c) (k.namespace a),
    text_lt-IsOrder.trans (k.namespace a) (k.namespace b) (k.namespace c),
    text_lt-IsOrder.trans (k.name a) (k.name b) (k.name c),
    text_lt-antisym (k.namespace a) (k.namespace b),
    text_lt-antisym (k.namespace c) (k.namespace b),
    text_lt-antisym (k.namespace a) (k.namespace c),
  )

  less-IsOrder : IsOrder (less_by_namespaced_name k)
  less-IsOrder = record { asym = less-asym; trans = less_trans }

  -- The item refers to the logging.
  abbrev pub RefersTo : Text → A → Type 0
  RefersTo ref i = (k.logging_ref i == ref) ≡ true

  abbrev refers : (ref : Text) (i : A) → Dec (RefersTo ref i)
  refers ref i = decide (k.logging_ref i == ref)

  with_ref-filter : (ref : Text) (l : List A) → with_ref k ref l ≡ filter (refers ref) l
  unfolding with_ref
  with_ref-filter ref [] = refl
  with_ref-filter ref (i ∷ l) =
      rw (with_ref-filter ref l) (branch (k.logging_ref i == ref) (i ∷ filter (refers ref) l) _)

  -- The items of a list that refer to the logging, in ascending order of namespace and name
  pub record IsSelection (ref : Text) (items : List A) (result : List A ⊎ Text) : Type 0 where
    pub out : List A
    pub returned : result ≡ inl out
    pub sorted : IsSorted (less_by_namespaced_name k) out
    pub same : (i : A) → Mem i out ↔ (Mem i items × RefersTo ref i)

  abbrev selected : Text → List A → List A
  selected ref items = with_ref k ref (sort_by (less_by_namespaced_name k) items)

  selected-mem :
      (ref : Text) (items : List A) (i : A)
      → Mem i (selected ref items) ↔ (Mem i items × RefersTo ref i)
  selected-mem ref items i =
      let sorted = Perm.mem_iff {a = i} (sort_by-perm less-IsOrder items) in
      let kept = mem-filter (refers ref) {l = sort_by (less_by_namespaced_name k) items} {x = i} in
      rw (selected, with_ref-filter ref (sort_by (less_by_namespaced_name k) items))
        ((λ m. let (n, r) = kept.0 m in (sorted.0 n, r)), (λ m. kept.1 (sorted.1 m.0, m.1)))

  -- What is selected from a list that the API server returns are its items that refer to the
  -- logging, and no others, in ascending order of namespace and name.
  pub select_items-IsSelection :
      (ref : Text) (items : List A) → IsSelection ref items (select_items k ref (inl items))
  unfolding select_items
  select_items-IsSelection ref items = record {
    out = selected ref items;
    returned = refl;
    sorted =
        rw (with_ref-filter ref (sort_by (less_by_namespaced_name k) items))
          (Pairwise.filter (refers ref) (sort_by-IsSorted less-IsOrder items));
    same = λ i. selected-mem ref items i;
  }

  -- No two items have one namespaced name, unless they are equal.
  abbrev pub DistinctNames : List A → Type 0
  DistinctNames items =
      (a b : A)
      → Mem a items
      → Mem b items
      → k.namespace a ≡ k.namespace b
      → k.name a ≡ k.name b
      → a ≡ b

  same_names :
      (a b : A)
      → less_by_namespaced_name k a b ≡ false
      → less_by_namespaced_name k b a ≡ false
      → (k.namespace a ≡ k.namespace b) × (k.name a ≡ k.name b)
  unfolding less_by_namespaced_name
  same_names a b p q = ground (
    arith,
    p,
    q,
    eq_iff (k.namespace a) (k.namespace b),
    eq_iff (k.namespace b) (k.namespace a),
    text_lt-antisym (k.namespace a) (k.namespace b),
    text_lt-antisym (k.name a) (k.name b),
  )

  no_ties : (items : List A) → DistinctNames items → NoTies less-IsOrder items
  no_ties items h a b ma mb p q = let same = same_names a b p q in h a b ma mb same.0 same.1

  -- The order in which the API server returns items that have distinct namespaced names does not
  -- matter to the selection.
  pub select_items-eq_of_perm :
      (ref : Text) (items items' : List A)
      → DistinctNames items
      → Perm items items'
      → select_items k ref (inl items) ≡ select_items k ref (inl items')
  unfolding select_items
  select_items-eq_of_perm ref items items' h p =
      ap (λ l. inl (with_ref k ref l)) (sort_by-eq_of_perm less-IsOrder (no_ties items h) p)
