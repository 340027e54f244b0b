-- ===== src/Controller/Mapper.antt =====
-- src/controllers/logging/logging_controller.go: which loggings a changed object concerns.
use logging_operator.Base.{
  ℕ, Text, codes, ◌==◌, nat_eq, Bool, not, Option, none, some, List, [], ◌∷◌, ◌++◌, if◌then◌else◌,
}

-- What the mapper reads of a `Logging`
pub record LoggingItem : Type 0 where
  pub namespace : Text
  pub name : Text
  pub logging_ref : Text

-- `reconcileRequestsForLoggingRef`: the namespaces and names of the loggings of a reference
unfoldable pub reconcile_requests_for_logging_ref : List LoggingItem → Text → List (Text × Text)
reconcile_requests_for_logging_ref [] logging_ref = []
reconcile_requests_for_logging_ref (l ∷ ls) logging_ref =
    let rest = reconcile_requests_for_logging_ref ls logging_ref in
    if l.logging_ref == logging_ref then (l.namespace, l.name) ∷ rest else rest

-- A character of the pattern `logging.banzaicloud.io/(.*)`: a dot is any character but a newline.
unfoldable pub matches_char : ℕ → ℕ → Bool
matches_char pattern c = if nat_eq pattern b'.' then not (nat_eq c 10) else nat_eq pattern c

-- What is behind a match of the pattern at the text's start
unfoldable pub match_here : Text → Text → Option Text
unfolding matches_char
match_here [] s = some s
match_here (p ∷ ps) [] = none
match_here (p ∷ ps) (c ∷ s) = if matches_char p c then match_here ps s else none

-- `(.*)`: up to a newline
unfoldable pub line : Text → Text
line [] = []
line (c ∷ s) = if nat_eq c 10 then [] else c ∷ line s

-- `FindStringSubmatch`: the group of the leftmost match
unfoldable pub find_submatch : Text → Text → Option Text
unfolding match_here line
find_submatch pattern [] = elim (match_here pattern []) [
  | some rest ↦ some (line rest)
  | none ↦ none
]
find_submatch pattern (c ∷ s) = elim (match_here pattern (c ∷ s)) [
  | some rest ↦ some (line rest)
  | none ↦ find_submatch pattern s
]

-- The requests of one annotation: `default` stands for the empty reference too.
unfoldable pub requests_of_ref : List LoggingItem → Option Text → List (Text × Text)
unfolding reconcile_requests_for_logging_ref
requests_of_ref loggings none = []
requests_of_ref loggings (some logging_ref) =
    let own = reconcile_requests_for_logging_ref loggings logging_ref in
    if logging_ref == codes "default"
    then reconcile_requests_for_logging_ref loggings [] ++ own
    else own

-- The mapper at a secret, by the keys of its annotations
unfoldable pub requests_for_secret : List LoggingItem → List Text → List (Text × Text)
unfolding find_submatch requests_of_ref
requests_for_secret loggings [] = []
requests_for_secret loggings (key ∷ rest) =
    requests_of_ref loggings (find_submatch (codes "logging.banzaicloud.io/") key)
    ++ requests_for_secret loggings rest
