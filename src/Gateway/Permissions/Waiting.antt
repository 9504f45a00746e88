-- ===== src/Gateway/Permissions/Waiting.antt =====
-- gateway.go: who waits after any sequence of calls.
use nats_web_gateway.Gateway.Permissions.{
  violated_subject, handle, Waiters, waiters_of, without_waiter, register, unregister,
}
use nats_web_gateway.Base.{
  All, Bool, Bool-cases, List, [], any, arith, false, if◌then◌else◌, inl, inr, refl, some, true, ℕ,
  ◌&&◌, ◌==◌, ◌∷◌, ◌≡◌,
}
use nats_web_gateway.Base.Map.{All-delete, All-insert, lookup, lookup-delete, lookup-insert}
use nats_web_gateway.Base.Text.{Text, is_empty, text_eq, text_eq_iff}
use nats_web_gateway.Base.TextLaws.{nil-of_empty}

pub data Event : Type 0 where
  registers unregisters : Text → ℕ → Event

-- The table after the events, the last one first.
unfoldable pub run : List Event → Waiters
run [] = []
run (registers subject w ∷ events) = register subject w (run events)
run (unregisters subject w ∷ events) = unregister subject w (run events)

-- The abstract view: a request waits under a subject if its last event there is a registration.
unfoldable pub waits : List Event → Text → ℕ → Bool
waits [] s v = false
waits (registers subject w ∷ events) s v =
    if text_eq subject s && w == v then true else waits events s v
waits (unregisters subject w ∷ events) s v =
    if text_eq subject s && w == v then false else waits events s v

abbrev pub is_member : ℕ → List ℕ → Bool
is_member v xs = any (λ x. x == v) xs

is_member-without :
    (v w : ℕ) (xs : List ℕ)
    → is_member v (without_waiter w xs) ≡ (if w == v then false else is_member v xs)
unfolding without_waiter
is_member-without v w [] = ground arith
is_member-without v w (x ∷ xs) = ground (arith, is_member-without v w xs)

waiters_of-register :
    (subject s : Text) (w : ℕ) (t : Waiters)
    → waiters_of s (register subject w t)
      ≡ (if text_eq subject s then w ∷ without_waiter w (waiters_of s t) else waiters_of s t)
unfolding waiters_of register
waiters_of-register subject s w t = ground (
  arith,
  text_eq_iff subject s,
  lookup-insert subject s (w ∷ without_waiter w (waiters_of subject t)) t,
)

waiters_of-unregister :
    (subject s : Text) (w : ℕ) (t : Waiters)
    → waiters_of s (unregister subject w t)
      ≡ (if text_eq subject s then without_waiter w (waiters_of s t) else waiters_of s t)
unfolding waiters_of unregister
waiters_of-unregister subject s w t =
    let rest = without_waiter w (waiters_of subject t) in
    elim (Bool-cases (text_eq subject s)) [
      | inl same ↦
          let one : subject ≡ s = (text_eq_iff subject s).0 same in
          elim (Bool-cases (is_empty rest)) [
            | inl gone ↦ ground (arith, one, lookup-delete subject s t, nil-of_empty rest)
            | inr left ↦ ground (arith, one, lookup-insert subject s rest t)
          ]
      | inr other ↦ ground (arith, lookup-delete subject s t, lookup-insert subject s rest t)
    ]

-- After any sequence of registrations and their ends, the table has a request under a subject
-- exactly if the abstract view has it.
pub run-waits :
    (events : List Event) (s : Text) (v : ℕ)
    → is_member v (waiters_of s (run events)) ≡ waits events s v
unfolding run waits waiters_of lookup
run-waits [] s v = refl
run-waits (registers subject w ∷ events) s v = ground (
  arith,
  waiters_of-register subject s w (run events),
  is_member-without v w (waiters_of s (run events)),
  run-waits events s v,
)
run-waits (unregisters subject w ∷ events) s v = ground (
  arith,
  waiters_of-unregister subject s w (run events),
  is_member-without v w (waiters_of s (run events)),
  run-waits events s v,
)

-- An error that reports a violation of the permissions for a subject cancels exactly the requests
-- that wait under that subject; another error cancels none.
pub handle-waits :
    (events : List Event) (text s : Text) (v : ℕ)
    → violated_subject text ≡ some s
    → (is_member v (handle true text (run events)) ≡ waits events s v)
      × (handle false text (run events) ≡ [])
unfolding handle
handle-waits events text s v e = (rw e (run-waits events s v), refl)

-- An entry of the table has a waiter.
abbrev pub Occupied : Text × List ℕ → Type 0
Occupied (subject, waiters) = is_empty waiters ≡ false

-- After any sequence of calls, no subject is in the table without a waiter: the table does not grow
-- with the subjects that were once waited for.
pub run-Occupied : (events : List Event) → All Occupied (run events)
unfolding run register unregister
run-Occupied [] = tt
run-Occupied (registers subject w ∷ events) =
    All-insert Occupied subject _ (run events) refl (run-Occupied events)
run-Occupied (unregisters subject w ∷ events) =
    let rest = without_waiter w (waiters_of subject (run events)) in
    elim (Bool-cases (is_empty rest)) [
      | inl gone ↦ rw gone (All-delete Occupied subject (run events) (run-Occupied events))
      | inr left ↦
          rw left (All-insert Occupied subject rest (run events) left (run-Occupied events))
    ]
