-- ===== src/Gateway/Permissions.antt =====
-- gateway.go: `permissionTracker`, which cancels the requests that wait under a subject when the
-- server reports a violation of its permissions.
pub mod Waiting
use nats_web_gateway.Base.{
  Bool, List, Option, [], false, if◌then◌else◌, none, some, true, ℕ, ◌++◌, ◌==◌, ◌||◌, ◌∷◌,
}
use nats_web_gateway.Base.Map.{Map, delete, insert, lookup}
use nats_web_gateway.Base.Text.{Text, bytes, is_empty, lower}

-- A waiter is a number: its place in the order of their allocation.
abbrev pub Waiters : Type 0
Waiters = Map (List ℕ)

unfoldable pub waiters_of : Text → Waiters → List ℕ
waiters_of subject t = elim (lookup subject t) [ none ↦ [] | some waiters ↦ waiters ]

unfoldable pub without_waiter : ℕ → List ℕ → List ℕ
without_waiter w [] = []
without_waiter w (x ∷ xs) = elim (x == w) [
  | true ↦ without_waiter w xs
  | false ↦ x ∷ without_waiter w xs
]

-- `register`
unfoldable pub register : Text → ℕ → Waiters → Waiters
register subject w t = insert subject (w ∷ without_waiter w (waiters_of subject t)) t

-- The function that `register` gives back.
unfoldable pub unregister : Text → ℕ → Waiters → Waiters
unregister subject w t =
    let rest = without_waiter w (waiters_of subject t) in
    if is_empty rest then delete subject t else insert subject rest t

-- The text behind a prefix, whose letters match in both cases.
abbrev behind_prefix : Text → Text → Option Text
behind_prefix [] s = some s
behind_prefix (p ∷ prefix) [] = none
behind_prefix (p ∷ prefix) (c ∷ s) = if lower c == lower p then behind_prefix prefix s else none

-- The longest run without a quotation mark and white space, if it is not empty and a quotation mark
-- follows.
abbrev quoted_run : Text → Text → Option Text
quoted_run taken [] = none
quoted_run taken (c ∷ s) =
    if c == b'"'
    then (if is_empty taken then none else some taken)
    else if c == 0x20 || c == 9 || c == 10 || c == 12 || c == 13
    then none
    else quoted_run (taken ++ c ∷ []) s

abbrev match_here : Text → Option Text
match_here s = elim (behind_prefix (bytes "permissions violation for publish to \"") s) [
  | some rest ↦ quoted_run [] rest
  | none ↦ elim (behind_prefix (bytes "permissions violation for subscription to \"") s) [
    | some rest ↦ quoted_run [] rest
    | none ↦ none
  ]
]

-- `subjectPermissionPattern.FindStringSubmatch`: the subject of the leftmost match, on texts of
-- ASCII.
unfoldable pub violated_subject : Text → Option Text
violated_subject [] = none
violated_subject (c ∷ s) = elim (match_here (c ∷ s)) [
  | some subject ↦ some subject
  | none ↦ violated_subject s
]

-- `handle`, for the text of an error and whether it is a violation: the waiters it cancels.
unfoldable pub handle : Bool → Text → Waiters → List ℕ
handle violation text t =
    if violation
    then elim (violated_subject text) [ none ↦ [] | some subject ↦ waiters_of subject t ]
    else []
