-- ===== src/Fluentd/Events.antt =====
-- Properties of the requests and the results of a run, along its steps.
use logging_operator.Base.{◌≡◌, refl}
use logging_operator.Base.Lists.{All, All-append}
use logging_operator.Fluentd.Trace.{
  Event, Stop, Result, value, stopped, Trace, events, result, give, stop, ask, go_on, ◌>>=◌,
}

module _ {R : Type 0} where
  -- Every request of the run has the property.
  unfoldable pub Each : {A : Type 0} → (Event → Type 0) → Trace R A → Type 0
  unfolding events
  Each P t = All P (events t)

  -- The run returns the value.
  unfoldable pub Returns : {A : Type 0} → Trace R A → A → Type 0
  unfolding result
  Returns t a = result t ≡ value a

module _ (R : Type 0) where
  pub Each-give : {A : Type 0} (P : Event → Type 0) (a : A) → Each P (give {R = R} a)
  unfolding Each give
  Each-give P a = tt

  pub Each-stop : (A : Type 0) (P : Event → Type 0) (s : Stop R) → Each P (stop {A = A} s)
  unfolding Each stop
  Each-stop A P s = tt

  pub Each-ask : (P : Event → Type 0) (e : Event) → P e → Each P (ask {R = R} e)
  unfolding Each ask
  Each-ask P e p = (p, tt)

module _ {R : Type 0} where
  Each-go_on :
      {A B : Type 0} (P : Event → Type 0) (r : Result R A) (f : A → Trace R B)
      → ((a : A) → r ≡ value a → Each P (f a))
      → Each P (go_on r f)
  unfolding go_on
  Each-go_on P (value a) f h = h a refl
  Each-go_on P (stopped s) f h = Each-stop R _ P s

  pub Each-bind :
      {A B : Type 0} (P : Event → Type 0) (t : Trace R A) (f : A → Trace R B)
      → Each P t
      → ((a : A) → Returns t a → Each P (f a))
      → Each P (t >>= f)
  unfolding Each Returns ◌>>=◌
  Each-bind P t f h k =
      All-append P (events t) (events (go_on (result t) f)) h (Each-go_on P (result t) f k)

  go_on-value :
      {A B : Type 0} (r : Result R A) (f : A → Trace R B) (b : B)
      → Returns (go_on r f) b
      → (a : A) × (r ≡ value a) × Returns (f a) b
  unfolding go_on Returns stop
  go_on-value (value a) f b h = (a, refl, h)
  go_on-value (stopped s) f b h = absurd (cc)

  -- A run that returns a value went through all its steps.
  pub Returns-bind :
      {A B : Type 0} (t : Trace R A) (f : A → Trace R B) (b : B)
      → Returns (t >>= f) b
      → (a : A) × Returns t a × Returns (f a) b
  unfolding ◌>>=◌ Returns
  Returns-bind t f b h = go_on-value (result t) f b h

  -- So did one that does not use what its first step returns.
  pub Returns-then :
      {A B : Type 0} (t : Trace R A) (u : Trace R B) (b : B)
      → Returns (t >>= λ _. u) b
      → Returns u b
  Returns-then t u b h = (Returns-bind t (λ _. u) b h).2

module _ (R : Type 0) where
  pub Returns-give : {A : Type 0} (a b : A) → Returns (give {R = R} a) b → a ≡ b
  unfolding Returns give
  Returns-give a b e = cc

  pub Returns-stop : {A : Type 0} (s : Stop R) (a : A) → Returns (stop s) a → ⊥
  unfolding Returns stop
  Returns-stop s a e = absurd (cc)
