-- ===== src/Base/Map.antt =====
-- A Go map with string keys: an association list, in the order in which one `range` over it goes.
-- Go leaves that order open, so a statement about every list is one about every order.
use nats_web_gateway.Base.{
  All, Bool, Bool-cases, List, Option, [], arith, false, if◌then◌else◌, inl, inr, length, none,
  refl, some, true, ◌+◌, ◌∷◌, ◌≡◌, ◌≤◌,
}
use nats_web_gateway.Base.Text.{Text, text_eq, text_eq_iff}

abbrev pub Map {ℓ} : Type ℓ → Type ℓ
Map V = List (Text × V)

module _ {ℓ} {V : Type ℓ} where
  unfoldable pub lookup : Text → Map V → Option V
  lookup k [] = none
  lookup k ((j, v) ∷ m) = if text_eq j k then some v else lookup k m

  -- `m[k] = v`
  unfoldable pub insert : Text → V → Map V → Map V
  insert k v [] = (k, v) ∷ []
  insert k v ((j, w) ∷ m) = if text_eq j k then (k, v) ∷ m else (j, w) ∷ insert k v m

  pub lookup-insert :
      (k j : Text) (v : V) (m : Map V)
      → lookup j (insert k v m) ≡ (if text_eq k j then some v else lookup j m)
  unfolding lookup insert
  lookup-insert k j v [] = refl
  lookup-insert k j v ((i, w) ∷ m) =
      ground (arith, text_eq_iff k j, text_eq_iff i k, text_eq_iff i j, lookup-insert k j v m)

  -- `_, ok := m[k]`
  abbrev pub has_key : Text → Map V → Bool
  has_key k m = elim (lookup k m) [ none ↦ false | some _ ↦ true ]

  -- `delete(m, k)`
  unfoldable pub delete : Text → Map V → Map V
  delete k [] = []
  delete k ((j, v) ∷ m) = if text_eq j k then delete k m else (j, v) ∷ delete k m

  pub length-insert-le : (k : Text) (v : V) (m : Map V) → length (insert k v m) ≤ length m + 1
  unfolding insert
  length-insert-le k v [] = omega arith
  length-insert-le k v ((j, w) ∷ m) = ground (arith, length-insert-le k v m)

  pub length-insert_old :
      (k : Text) (v w : V) (m : Map V) → lookup k m ≡ some w → length (insert k v m) ≡ length m
  unfolding insert lookup
  length-insert_old k v w [] e = absurd (ground arith)
  length-insert_old k v w ((j, x) ∷ m) e = ground (arith, length-insert_old k v w m)

  pub length-delete-le : (k : Text) (m : Map V) → length (delete k m) ≤ length m
  unfolding delete
  length-delete-le k [] = omega arith
  length-delete-le k ((j, w) ∷ m) = ground (arith, length-delete-le k m)

  pub length-delete_old :
      (k : Text) (w : V) (m : Map V) → lookup k m ≡ some w → length (delete k m) + 1 ≤ length m
  unfolding delete lookup
  length-delete_old k w [] e = absurd (ground arith)
  length-delete_old k w ((j, x) ∷ m) e =
      ground (arith, length-delete_old k w m, length-delete-le k m)

  pub lookup-delete :
      (k j : Text) (m : Map V) → lookup j (delete k m) ≡ (if text_eq k j then none else lookup j m)
  unfolding delete lookup
  lookup-delete k j [] = ground arith
  lookup-delete k j ((i, w) ∷ m) =
      ground (arith, text_eq_iff k j, text_eq_iff i k, text_eq_iff i j, lookup-delete k j m)

pub All-insert {ℓ} :
    {V : Type ℓ} (P : Text × V → Type 0) (k : Text) (v : V) (m : Map V)
    → P (k, v)
    → All P m
    → All P (insert k v m)
unfolding insert
All-insert P k v [] p h = (p, tt)
All-insert P k v ((j, w) ∷ m) p (q, h) = elim (Bool-cases (text_eq j k)) [
  | inl same ↦ rw same (p, h)
  | inr other ↦ rw other (q, All-insert P k v m p h)
]

pub All-delete {ℓ} :
    {V : Type ℓ} (P : Text × V → Type 0) (k : Text) (m : Map V) → All P m → All P (delete k m)
unfolding delete
All-delete P k [] h = tt
All-delete P k ((j, w) ∷ m) (q, h) = elim (Bool-cases (text_eq j k)) [
  | inl same ↦ rw same (All-delete P k m h)
  | inr other ↦ rw other (q, All-delete P k m h)
]
