-- ===== src/Controller/Watched.antt =====
-- A secret that is marked for a logging triggers that logging.
use logging_operator.Base.{
  Text, codes, ◌==◌, eq_refl, nat_eq, ◌≡◌, refl, ap, subst, false, some, List, [], ◌∷◌, ◌++◌, inl,
  inr, Bool-cases,
}
use logging_operator.Base.Lists.{All, Has, Has-append_left, Has-append_right}
use logging_operator.Base.Assoc.{Assoc, keys, insert}
use logging_operator.Fluentd.Secrets.{annotation_ref, annotation_key, mark_secret}
use logging_operator.Controller.Mapper.{
  LoggingItem, reconcile_requests_for_logging_ref, match_here, matches_char, line, find_submatch,
  requests_of_ref, requests_for_secret,
}

keys-insert :
    {V : Type 0} (key : Text) (v : V) (m : Assoc V) → Has (λ k. k ≡ key) (keys (insert key v m))
unfolding insert
keys-insert key v [] = inl refl
keys-insert key v ((name, w) ∷ m) = elim (Bool-cases (name == key)) [
  | inl p ↦ rw p (inl refl)
  | inr p ↦ rw p (inr (keys-insert key v m))
]

-- The requests for a reference have every logging of it.
pub requests-Has :
    (loggings : List LoggingItem) (l : LoggingItem)
    → Has (λ x. x ≡ l) loggings
    → Has
        (λ r. r ≡ (l.namespace, l.name))
        (reconcile_requests_for_logging_ref loggings l.logging_ref)
unfolding reconcile_requests_for_logging_ref
requests-Has [] l h = absurd h
requests-Has (x ∷ xs) l (inl e) = rw (e, eq_refl) (inl refl)
requests-Has (x ∷ xs) l (inr h) = elim (Bool-cases (x.logging_ref == l.logging_ref)) [
  | inl p ↦ rw p (inr (requests-Has xs l h))
  | inr p ↦ rw p (requests-Has xs l h)
]

line_lem : (s : Text) → All (λ c. nat_eq c 10 ≡ false) s → line s ≡ s
unfolding line
line_lem [] h = refl
line_lem (c ∷ s) (p, h) = rw p (ap (◌∷◌ c) (line_lem s h))

find_submatch-key :
    (s : Text)
    → All (λ c. nat_eq c 10 ≡ false) s
    → find_submatch (codes "logging.banzaicloud.io/") (codes "logging.banzaicloud.io/" ++ s)
      ≡ some s
unfolding codes find_submatch match_here matches_char
find_submatch-key s h = ap some (line_lem s h)

annotation_ref-line :
    (s : Text)
    → All (λ c. nat_eq c 10 ≡ false) s
    → All (λ c. nat_eq c 10 ≡ false) (annotation_ref s)
unfolding codes annotation_ref
annotation_ref-line [] h = (refl, (refl, (refl, (refl, (refl, (refl, (refl, tt)))))))
annotation_ref-line (c ∷ s) h = h

requests_of_ref-Has :
    (loggings : List LoggingItem) (l : LoggingItem) (s : Text)
    → Has (λ x. x ≡ l) loggings
    → l.logging_ref ≡ s
    → Has (λ r. r ≡ (l.namespace, l.name)) (requests_of_ref loggings (some (annotation_ref s)))
unfolding requests_of_ref annotation_ref
requests_of_ref-Has loggings l [] h e = rw eq_refl (
    Has-append_left _ _ _ (
      subst
        (λ s. Has (λ r. r ≡ (l.namespace, l.name)) (reconcile_requests_for_logging_ref loggings s))
        e (requests-Has loggings l h)))
requests_of_ref-Has loggings l (c ∷ s) h e =
    let own =
      subst
        (λ s. Has (λ r. r ≡ (l.namespace, l.name)) (reconcile_requests_for_logging_ref loggings s))
        e (requests-Has loggings l h) in
    elim (Bool-cases ((c ∷ s) == codes "default")) [
      | inl p ↦ rw p (Has-append_right _ _ _ own)
      | inr p ↦ rw p own
    ]

requests_for_secret-Has :
    (P : Text × Text → Type 0) (loggings : List LoggingItem) (ks : List Text) (key : Text)
    → Has (λ k. k ≡ key) ks
    → Has P (requests_of_ref loggings (find_submatch (codes "logging.banzaicloud.io/") key))
    → Has P (requests_for_secret loggings ks)
unfolding requests_for_secret
requests_for_secret-Has P loggings [] key h r = absurd h
requests_for_secret-Has P loggings (k ∷ ks) key (inl e) r =
    Has-append_left P (requests_of_ref loggings (find_submatch (codes "logging.banzaicloud.io/") k))
      (requests_for_secret loggings ks) (rw e r)
requests_for_secret-Has P loggings (k ∷ ks) key (inr h) r =
    Has-append_right P _ _ (requests_for_secret-Has P loggings ks key h r)

-- A secret that was marked for a logging, whatever its annotations were, triggers that logging when it
-- changes, if the logging is listed and its reference has no newline.
pub mark_secret-requests :
    (loggings : List LoggingItem) (l : LoggingItem) (annotations : Assoc Text)
    → Has (λ x. x ≡ l) loggings
    → All (λ c. nat_eq c 10 ≡ false) l.logging_ref
    → Has
        (λ r. r ≡ (l.namespace, l.name))
        (requests_for_secret loggings (keys (mark_secret l.logging_ref annotations)))
unfolding mark_secret annotation_key
mark_secret-requests loggings l annotations h n =
    requests_for_secret-Has _ loggings _ (annotation_key l.logging_ref)
      (keys-insert (annotation_key l.logging_ref) (codes "watched") annotations)
      (rw (find_submatch-key (annotation_ref l.logging_ref) (annotation_ref-line l.logging_ref n))
        (requests_of_ref-Has loggings l l.logging_ref h refl))
