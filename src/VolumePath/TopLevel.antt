-- ===== src/VolumePath/TopLevel.antt =====
-- Which directory of a list stands for a path.
use mathlib.Core.Logic.{ite}
use mathlib.Core.List.{Mem, filter, mem-filter, mem-cons_self, not-mem-nil}
use mathlib.Core.List.Perm
use logging_operator.Base.{
  ◌≤◌, Text, has_prefix, ◌≡◌, ◌↔◌, refl, sym, subst, ap, Bool, true, false, Option, none, some,
  List, [], ◌∷◌, arith, if◌then◌else◌,
}
use logging_operator.Base.Filter.{decide, branch}
use logging_operator.Base.Lists.{length}
use logging_operator.Base.Sort.{sort_by}
use logging_operator.Base.Sort.Laws.{IsOrder, IsSorted, head_least, sort_by-IsSorted, sort_by-perm}
use logging_operator.VolumePath.{prepend, shorter, keep_prefix, first, sort_matches, top_level_path}
use logging_operator.VolumePath.Apply.{collect, apply-at}

shorter-IsOrder : IsOrder shorter
unfolding shorter
shorter-IsOrder = record {
  asym = λ a b h. ground (arith, h);
  trans = λ a b c h k. ground (arith, h, k);
}

has_prefix_refl : (s : Text) → has_prefix s s ≡ true
unfolding has_prefix
has_prefix_refl [] = refl
has_prefix_refl (c ∷ s) = ground (arith, has_prefix_refl s)

module _ (path : Text) where
  abbrev IsPrefix : Text → Type 0
  IsPrefix t = has_prefix path t ≡ true

  abbrev is_prefix : (t : Text) → Dec (IsPrefix t)
  is_prefix t = decide (has_prefix path t)

  collect-filter : (l : List Text) → collect (keep_prefix path) l ≡ filter is_prefix l
  unfolding collect keep_prefix prepend
  collect-filter [] = refl
  collect-filter (t ∷ l) = rw (collect-filter l) (pushed (has_prefix path t) t (filter is_prefix l))
    where
      pushed :
          (b : Bool) (t : Text) (rest : List Text)
          → prepend (if b then some t else none) rest
            ≡ ite {C = List Text} (decide b) (t ∷ rest) rest
      pushed true t rest = branch true (t ∷ rest) rest
      pushed false t rest = branch false (t ∷ rest) rest

  -- A shortest one of the list's texts with which the path begins
  pub record IsTopLevel (l : List Text) (result : Option Text) : Type 0 where
    pub top : Text
    pub returned : result ≡ some top
    pub member : Mem top l
    pub prefix : has_prefix path top ≡ true
    pub shortest : (t : Text) → Mem t l → has_prefix path t ≡ true → length top ≤ length t

  -- The list's texts with which the path begins, and the same by length
  abbrev found : List Text → List Text
  found l = collect (keep_prefix path) l

  found-mem : (l : List Text) (t : Text) → Mem t (found l) ↔ (Mem t l × IsPrefix t)
  found-mem l t = rw (found, collect-filter l) (mem-filter is_prefix)

  sorted-mem : (l : List Text) (t : Text) → Mem t (sort_by shorter (found l)) ↔ Mem t (found l)
  sorted-mem l t = Perm.mem_iff (sort_by-perm shorter-IsOrder (found l))

  result-eq : (l : List Text) → top_level_path l path ≡ first (some (sort_by shorter (found l)))
  unfolding top_level_path sort_matches
  result-eq l = ap (λ o. first (sort_matches o)) (apply-at (keep_prefix path) l)

  head-shortest :
      (top : Text) (out : List Text)
      → IsSorted shorter (top ∷ out)
      → (t : Text) → Mem t (top ∷ out)
      → length top ≤ length t
  unfolding shorter
  head-shortest top out s t m = ground (arith, head_least shorter-IsOrder s t m)

  from_sorted :
      (l out : List Text)
      → sort_by shorter (found l) ≡ out
      → Mem path l
      → IsTopLevel l (first (some out))
  unfolding first
  from_sorted l [] e m = absurd (
      not-mem-nil (
        subst (Mem path) e
          ((sorted-mem l path).1 ((found-mem l path).1 (m, has_prefix_refl path)))))
  from_sorted l (top ∷ out) e m =
      let s : IsSorted shorter (top ∷ out) =
        subst (IsSorted shorter) e (sort_by-IsSorted shorter-IsOrder (found l)) in
      let in_found = (sorted-mem l top).0 (subst (Mem top) (sym e) mem-cons_self) in
      let is_found = (found-mem l top).0 in_found in
      record {
        top = top;
        returned = refl;
        member = is_found.0;
        prefix = is_found.1;
        shortest = λ t n p.
            head-shortest top out s t
              (subst (Mem t) e ((sorted-mem l t).1 ((found-mem l t).1 (n, p))));
      }

  -- For a path of a list, `topLevelPath` gives a shortest text of the list with which the path
  -- begins; this is a comparison of texts, so it need not end where a directory ends.
  pub top_level_path-IsTopLevel :
      (l : List Text) → Mem path l → IsTopLevel l (top_level_path l path)
  top_level_path-IsTopLevel l m = rw (result-eq l) (from_sorted l _ refl m)
