-- ===== src/Controller/Chain.antt =====
-- The order of the reconcilers, and where it ends.
use logging_operator.Base.{◌≡◌, refl, ap, List, [], ◌∷◌, ◌++◌, map, ◌⊎◌, inl, inr}
use logging_operator.Base.Lists.{All}
use logging_operator.Fluentd.Trace.{Stop, Result, value, stopped}
use logging_operator.Controller.Reconcile.{Component, Step, run_steps}

module _ {R : Type 0} where
  -- The step lets the controller go on.
  abbrev pub Completed : Step R → Type 0
  Completed (component, end) = end ≡ value tt

  abbrev pub component_of : Step R → Component
  component_of (component, end) = component

  -- All steps ran and completed, or those up to the first that did not.
  abbrev pub Ran : List (Step R) → List Component × Result R (Unit {0}) → Type 0
  Ran steps out =
      (All Completed steps × (out.0 ≡ map component_of steps) × (out.1 ≡ value tt))
      ⊎ ((before : List (Step R)) × (component : Component) × (s : Stop R) × (after : List (Step R))
          × (steps ≡ before ++ (component, stopped s) ∷ after)
          × All Completed before
          × (out.0 ≡ map component_of before ++ component ∷ [])
          × (out.1 ≡ stopped s))

  -- The reconcilers run in their order; each that runs completed, except the last if it returned a
  -- result or an error or panicked, which is then how the controller ends; without such a one all of
  -- them run.
  pub run_steps-Ran : (steps : List (Step R)) → Ran steps (run_steps steps)
  unfolding run_steps
  run_steps-Ran [] = inl (tt, refl, refl)
  run_steps-Ran ((c, stopped s) ∷ steps) = inr ([], c, s, steps, refl, tt, refl, refl)
  run_steps-Ran ((c, value a) ∷ steps) = elim (run_steps-Ran steps) [
    | inl (all, components, end) ↦ inl ((refl, all), ap (◌∷◌ c) components, end)
    | inr (before, component, s, after, split, all, components, end) ↦ inr (
      (c, value a) ∷ before,
      component,
      s,
      after,
      ap (◌∷◌ (c, value a)) split,
      (refl, all),
      ap (◌∷◌ c) components,
      end,
    )
  ]
