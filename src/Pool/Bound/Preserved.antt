-- ===== src/Pool/Bound/Preserved.antt =====
-- security_context.go: what an operation does to the pool's size.
use nats_web_gateway.Base.{
  List, Option, Option-cases, [], arith, false, if_intro, inl, inr, length, none, not, option_intro,
  some, ℕ, ◌||◌, ◌∷◌, ◌≡◌, ◌≤◌,
}
use nats_web_gateway.Base.Map.{
  Map, delete, insert, length-delete-le, length-delete_old, length-insert-le, length-insert_old,
  lookup,
}
use nats_web_gateway.Base.Text.{Text}
use nats_web_gateway.Pool.{
  Round, AcquireError, Pool, Entry, Limits, World, remove, evict_changed, evict_changed_from,
  evict_idle, evict_idle_from, make_room, join_attempt, start_attempt, take_lease, use_entry,
  acquire_round, finish_connect, size, same_entry, is_full, unused, lifetime_over,
}

-- Entries and attempts together stay within the limit, which is a given one.
pub record IsBounded (limits : Limits) (p : Pool) : Type 0 where
  pub same_limits : p.limits ≡ limits
  pub within : size p ≤ limits.max_connections

length-evict_changed_from :
    (w : World) (m : Map Entry) (closed : List ℕ)
    → length (evict_changed_from w m closed).0 ≤ length m
unfolding evict_changed_from
length-evict_changed_from w [] closed = omega arith
length-evict_changed_from w ((key, e) ∷ m) closed = ground (
  arith,
  length-evict_changed_from w m closed,
  length-evict_changed_from w m (e.connection ∷ closed),
)

length-evict_idle_from :
    (limits : Limits) (now : ℕ) (m : Map Entry) (closed : List ℕ)
    → length (evict_idle_from limits now m closed).0 ≤ length m
unfolding evict_idle_from
length-evict_idle_from limits now [] closed = omega arith
length-evict_idle_from limits now ((key, e) ∷ m) closed = ground (
  arith,
  length-evict_idle_from limits now m closed,
  length-evict_idle_from limits now m (e.connection ∷ closed),
)

abbrev AfterRound : Limits → Pool × Round → Type 0
AfterRound limits r = IsBounded limits r.0

abbrev AfterConnect : Limits → Pool × Option AcquireError → Type 0
AfterConnect limits r = IsBounded limits r.0

pub same_entry-lookup :
    (key : Text) (address : ℕ) (p : Pool) (e : Entry)
    → same_entry key address p ≡ some e
    → lookup key p.entries ≡ some e
same_entry-lookup key address p e h = elim (Option-cases (lookup key p.entries)) [
  | inl none' ↦ absurd (ground arith)
  | inr (e', found) ↦ ground arith
]

module _ {limits : Limits} where
  evict_changed-IsBounded :
      (w : World) {p : Pool} → IsBounded limits p → IsBounded limits (evict_changed w p)
  unfolding evict_changed
  evict_changed-IsBounded w {p} b = record {
    same_limits = b.same_limits;
    within = omega (arith, b.within, length-evict_changed_from w p.entries p.closed);
  }

  make_room-IsBounded :
      (now : ℕ) {p : Pool} → IsBounded limits p → IsBounded limits (make_room now p)
  unfolding make_room evict_idle
  make_room-IsBounded now {p} b =
      ground (arith, length-evict_idle_from p.limits now p.entries p.closed)

  pub remove-IsBounded :
      (key : Text) (e : Entry) {p : Pool} → IsBounded limits p → IsBounded limits (remove key e p)
  unfolding remove
  remove-IsBounded key e {p} b = record {
    same_limits = b.same_limits;
    within = omega (arith, b.within, length-delete-le key p.entries);
  }

  -- A write to an entry that is there.
  pub insert-IsBounded :
      (key : Text) (e e' : Entry) {p : Pool}
      → lookup key p.entries ≡ some e
      → IsBounded limits p
      → IsBounded limits (record p { entries = insert key e' p.entries })
  insert-IsBounded key e e' {p} found b = record {
    same_limits = b.same_limits;
    within = omega (arith, b.within, length-insert_old key e' e p.entries found);
  }

  start_attempt-IsBounded :
      (key : Text) {p : Pool}
      → IsBounded limits p
      → is_full p ≡ false
      → IsBounded limits (start_attempt key p)
  start_attempt-IsBounded key {p} b room = record {
    same_limits = b.same_limits;
    within = ground (arith, b.same_limits, length-insert-le key p.fresh p.inflight);
  }

  join_attempt-IsBounded :
      (now : ℕ) (key : Text) {p : Pool}
      → IsBounded limits p
      → AfterRound limits (join_attempt now key p)
  unfolding join_attempt
  join_attempt-IsBounded now key {p} b =
      option_intro (AfterRound limits) (lookup key p.inflight) _ _
        (λ _.
          if_intro (AfterRound limits) (is_full (make_room now p)) _ _
            (λ _. make_room-IsBounded now b)
            (λ room. start_attempt-IsBounded key (make_room-IsBounded now b) room))
        (λ attempt _. b)

  use_entry-IsBounded :
      (w : World) (key : Text) (e : Entry) {p : Pool}
      → lookup key p.entries ≡ some e
      → IsBounded limits p
      → AfterRound limits (use_entry w key e p)
  unfolding use_entry take_lease
  use_entry-IsBounded w key e {p} found b =
      if_intro (AfterRound limits) (e.expired || lifetime_over p.limits w.now e) _ _
        (λ _.
          if_intro (AfterRound limits) (unused e) _ _
            (λ _. join_attempt-IsBounded w.now key (remove-IsBounded key e b))
            (λ _. insert-IsBounded key e _ found b))
        (λ _.
          if_intro (AfterRound limits) (not (w.connected e.connection)) _ _ (λ _. b)
            (λ _. insert-IsBounded key e _ found b))

  pub acquire_round-IsBounded :
      (w : World) (key : Text) {p : Pool}
      → IsBounded limits p
      → AfterRound limits (acquire_round w key p)
  unfolding acquire_round
  acquire_round-IsBounded w key {p} b =
      if_intro (AfterRound limits) p.stopping _ _ (λ _. b)
        (λ _.
          option_intro (AfterRound limits) (lookup key (evict_changed w p).entries) _ _
            (λ _. join_attempt-IsBounded w.now key (evict_changed-IsBounded w b))
            (λ e found. use_entry-IsBounded w key e found (evict_changed-IsBounded w b)))

  pub finish_connect-IsBounded :
      (w : World) (key : Text) (identity attempt : ℕ) (result : Option ℕ) {p : Pool}
      → lookup key p.inflight ≡ some attempt
      → IsBounded limits p
      → AfterConnect limits (finish_connect w key identity result p)
  unfolding finish_connect
  finish_connect-IsBounded w key identity attempt none {p} started b = record {
    same_limits = b.same_limits;
    within = omega (arith, b.within, length-delete-le key p.inflight);
  }
  finish_connect-IsBounded w key identity attempt (some connection) {p} started b =
      if_intro (AfterConnect limits) p.stopping _ _ (λ _. less)
        (λ _.
          option_intro (AfterConnect limits) (lookup (w.observed identity).0 p.entries) _ _
            (λ _. record {
              same_limits = b.same_limits;
              within = omega (
                arith,
                b.within,
                length-delete_old key attempt p.inflight started,
                length-insert-le (w.observed identity).0 _ p.entries,
              );
            })
            (λ _ _. less))
    where
      less :
          {closed : List ℕ}
          → IsBounded limits (record p { inflight = delete key p.inflight; closed = closed })
      less = record {
        same_limits = b.same_limits;
        within = omega (arith, b.within, length-delete-le key p.inflight);
      }
