-- ===== src/Status/Search.antt =====
-- What the loops over references find: whether there is an output for one of them, and for which there is
-- none.
use logging_operator.Base.{
  Text, ◌==◌, ◌≡◌, refl, sym, ap, ◌∙◌, Bool, true, false, ◌||◌, ◌&&◌, Option, none, some, List, [],
  ◌∷◌, ◌++◌, append_assoc, append-nil, arith, if◌then◌else◌, Bool-cases, inl, inr,
}
use logging_operator.Resources.{Output, ClusterOutput}
use logging_operator.Status.{
  Problem, dangling_global, dangling_local, Status, activate_by_name, activate_by_namespaced_name,
  Refs, after_ref, global_refs, local_refs,
}

some_injective : {A : Type 0} {a b : A} → some a ≡ some b → a ≡ b
some_injective e = cc

is_some : {A : Type 0} → Option A → Bool
is_some none = false
is_some (some a) = true

-- The references for which a test fails, as problems, in order
abbrev pub dangling : (Text → Problem) → (Text → Bool) → List Text → List Problem
dangling problem has [] = []
dangling problem has (ref ∷ refs) =
    let rest = dangling problem has refs in if has ref then rest else problem ref ∷ rest

-- The test succeeds for one of the references.
abbrev pub any : (Text → Bool) → List Text → Bool
any has [] = false
any has (ref ∷ refs) = has ref || any has refs

any-eq :
    (has had : Text → Bool)
    → ((ref : Text) → has ref ≡ had ref)
    → (refs : List Text) → any has refs ≡ any had refs
any-eq has had h [] = refl
any-eq has had h (ref ∷ refs) = cc (h ref, any-eq has had h refs)

dangling-eq :
    (problem : Text → Problem) (has had : Text → Bool)
    → ((ref : Text) → has ref ≡ had ref)
    → (refs : List Text) → dangling problem has refs ≡ dangling problem had refs
dangling-eq problem has had h [] = refl
dangling-eq problem has had h (ref ∷ refs) = rw (h ref, dangling-eq problem has had h refs) refl

found_cons :
    {A : Type 0} (x : A) (o : Option (List A))
    → is_some {A = List A} (elim o [ none ↦ none | some rest ↦ some (x ∷ rest) ]) ≡ is_some o
unfolding is_some
found_cons x none = refl
found_cons x (some rest) = refl

-- What the search changes in a list where it finds nothing behind the head, or a list
same_cons :
    {A : Type 0} (has : List A → Bool) (b : Bool) (x : A) (l m : List A) (o : Option (List A))
    → ((rest : List A) → has (x ∷ rest) ≡ (b || has rest))
    → ((rest : List A) → o ≡ some rest → has rest ≡ has l)
    → ◌≡◌ {A = Option (List A)} (elim o [ none ↦ none | some rest ↦ some (x ∷ rest) ]) (some m)
    → has m ≡ has (x ∷ l)
same_cons has b x l m none step h e = absurd (cc (e))
same_cons has b x l m (some rest) step h e =
    ap has (sym (some_injective e)) ∙ (step rest ∙ (ap (λ r. b || r) (h rest refl) ∙ sym (step l)))

-- The flag and the problems of a loop over references
pub record IsCount {O : Type 0} (problem : Text → Problem) (has : Text → Bool) (refs : List Text)
    (r s : Refs O) : Type 0 where
  pub flag : s.found ≡ (r.found || any has refs)
  pub listed : s.problems ≡ r.problems ++ dangling problem has refs

IsCount-nil :
    {O : Type 0} (problem : Text → Problem) (has : Text → Bool) (r : Refs O)
    → IsCount problem has [] r r
IsCount-nil problem has r = record { flag = ground arith; listed = sym (append-nil r.problems) }

-- One reference and then the others
IsCount-cons :
    {O : Type 0} (problem : Text → Problem) (has had : Text → Bool) (ref : Text) (refs : List Text)
    (r s : Refs O) (o : Option (List O))
    → is_some o ≡ has ref
    → ((n : Text) → had n ≡ has n)
    → IsCount problem had refs (after_ref r (problem ref) o) s
    → IsCount problem has (ref ∷ refs) r s
unfolding is_some after_ref
IsCount-cons problem has had ref refs r s none e same c = record {
  flag = ground (arith, c.flag, e, any-eq had has same refs);
  listed = rw (sym e) (
      cc (
        c.listed,
        append_assoc r.problems (problem ref ∷ []) (dangling problem had refs),
        dangling-eq problem had has same refs,
      ));
}
IsCount-cons problem has had ref refs r s (some os) e same c = record {
  flag = ground (arith, c.flag, e, any-eq had has same refs);
  listed = rw (sym e) (cc (c.listed, dangling-eq problem had has same refs));
}

module _ {S : Type 0} where
  -- A cluster output of this name exists.
  abbrev pub has_cluster_output : List (ClusterOutput S × Status) → Text → Bool
  has_cluster_output [] name = false
  has_cluster_output ((c, st) ∷ cs) name = c.name == name || has_cluster_output cs name

  -- An output of this name exists in the namespace.
  abbrev pub has_output : Text → List (Output S × Status) → Text → Bool
  has_output namespace [] name = false
  has_output namespace ((o, st) ∷ os) name =
      (o.namespace == namespace && o.name == name) || has_output namespace os name

  found_cluster :
      (name : Text) (cs : List (ClusterOutput S × Status))
      → is_some (activate_by_name name cs) ≡ has_cluster_output cs name
  unfolding is_some activate_by_name
  found_cluster name [] = refl
  found_cluster name ((c, st) ∷ cs) = elim (Bool-cases (c.name == name)) [
    | inl p ↦ rw (activate_by_name, p) refl
    | inr p ↦
        rw (activate_by_name, p)
          (found_cons (c, st) (activate_by_name name cs) ∙ found_cluster name cs)
  ]

  same_clusters :
      (name : Text) (cs ds : List (ClusterOutput S × Status))
      → activate_by_name name cs ≡ some ds
      → (n : Text) → has_cluster_output ds n ≡ has_cluster_output cs n
  unfolding activate_by_name
  same_clusters name [] ds h n = absurd (cc (h))
  same_clusters name ((c, st) ∷ cs) ds h n = elim (Bool-cases (c.name == name)) [
    | inl p ↦
        ap (λ l. has_cluster_output l n) (sym (some_injective (rw (activate_by_name, p) at h)))
    | inr p ↦
        same_cons (λ l. has_cluster_output l n) (c.name == n) (c, st) cs ds
          (activate_by_name name cs) (λ rest. refl) (λ rest e. same_clusters name cs rest e n)
          (rw (activate_by_name, p) at h)
  ]

  found_output :
      (namespace name : Text) (os : List (Output S × Status))
      → is_some (activate_by_namespaced_name namespace name os) ≡ has_output namespace os name
  unfolding is_some activate_by_namespaced_name
  found_output namespace name [] = refl
  found_output namespace name ((o, st) ∷ os) =
      elim (Bool-cases (o.namespace == namespace && o.name == name)) [
        | inl p ↦ rw (activate_by_namespaced_name, p) refl
        | inr p ↦
            rw (activate_by_namespaced_name, p)
              (found_cons (o, st) (activate_by_namespaced_name namespace name os)
                ∙ found_output namespace name os)
      ]

  same_outputs :
      (namespace name : Text) (os ps : List (Output S × Status))
      → activate_by_namespaced_name namespace name os ≡ some ps
      → (n : Text) → has_output namespace ps n ≡ has_output namespace os n
  unfolding activate_by_namespaced_name
  same_outputs namespace name [] ps h n = absurd (cc (h))
  same_outputs namespace name ((o, st) ∷ os) ps h n =
      elim (Bool-cases (o.namespace == namespace && o.name == name)) [
        | inl p ↦
            ap (λ l. has_output namespace l n)
              (sym (some_injective (rw (activate_by_namespaced_name, p) at h)))
        | inr p ↦
            same_cons (λ l. has_output namespace l n) (o.namespace == namespace && o.name == n)
              (o, st) os ps (activate_by_namespaced_name namespace name os) (λ rest. refl)
              (λ rest e. same_outputs namespace name os rest e n)
              (rw (activate_by_namespaced_name, p) at h)
      ]

  global_step :
      (ref : Text) (refs : List Text) (r : Refs (ClusterOutput S × Status))
      (o : Option (List (ClusterOutput S × Status)))
      → activate_by_name ref r.outputs ≡ o
      → IsCount dangling_global
          (has_cluster_output (after_ref r (dangling_global ref) o).outputs)
          refs
          (after_ref r (dangling_global ref) o)
          (global_refs refs (after_ref r (dangling_global ref) o))
      → IsCount dangling_global
          (has_cluster_output r.outputs)
          (ref ∷ refs)
          r
          (global_refs refs (after_ref r (dangling_global ref) o))
  unfolding after_ref
  global_step ref refs r none h c =
      IsCount-cons dangling_global _ _ ref refs r _ none
        (ap is_some (sym h) ∙ found_cluster ref r.outputs) (λ n. refl) c
  global_step ref refs r (some ds) h c =
      IsCount-cons dangling_global _ _ ref refs r _ (some ds)
        (ap is_some (sym h) ∙ found_cluster ref r.outputs) (same_clusters ref r.outputs ds h) c

  pub global_refs-IsCount :
      (refs : List Text) (r : Refs (ClusterOutput S × Status))
      → IsCount dangling_global (has_cluster_output r.outputs) refs r (global_refs refs r)
  unfolding global_refs
  global_refs-IsCount [] r = IsCount-nil dangling_global (has_cluster_output r.outputs) r
  global_refs-IsCount (ref ∷ refs) r =
      global_step ref refs r (activate_by_name ref r.outputs) refl (global_refs-IsCount refs _)

  local_step :
      (namespace ref : Text) (refs : List Text) (r : Refs (Output S × Status))
      (o : Option (List (Output S × Status)))
      → activate_by_namespaced_name namespace ref r.outputs ≡ o
      → IsCount dangling_local
          (has_output namespace (after_ref r (dangling_local ref) o).outputs)
          refs
          (after_ref r (dangling_local ref) o)
          (local_refs namespace refs (after_ref r (dangling_local ref) o))
      → IsCount dangling_local
          (has_output namespace r.outputs)
          (ref ∷ refs)
          r
          (local_refs namespace refs (after_ref r (dangling_local ref) o))
  unfolding after_ref
  local_step namespace ref refs r none h c =
      IsCount-cons dangling_local _ _ ref refs r _ none
        (ap is_some (sym h) ∙ found_output namespace ref r.outputs) (λ n. refl) c
  local_step namespace ref refs r (some ds) h c =
      IsCount-cons dangling_local _ _ ref refs r _ (some ds)
        (ap is_some (sym h) ∙ found_output namespace ref r.outputs)
        (same_outputs namespace ref r.outputs ds h) c

  pub local_refs-IsCount :
      (namespace : Text) (refs : List Text) (r : Refs (Output S × Status))
      → IsCount dangling_local (has_output namespace r.outputs) refs r (local_refs namespace refs r)
  unfolding local_refs
  local_refs-IsCount namespace [] r = IsCount-nil dangling_local (has_output namespace r.outputs) r
  local_refs-IsCount namespace (ref ∷ refs) r =
      local_step namespace ref refs r (activate_by_namespaced_name namespace ref r.outputs) refl
        (local_refs-IsCount namespace refs _)
