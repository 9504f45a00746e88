-- ===== src/Pool/Lease.antt =====
-- security_context.go: the state of an entry at the moment of its lease.
use nats_web_gateway.Base.{
  List, [], arith, false, if_intro, not, option_intro, some, true, ℕ, ◌+◌, ◌<◌, ◌||◌, ◌∙◌, ◌∷◌, ◌≡◌,
  ◌≢◌,
}
use nats_web_gateway.Base.Map.{Map, lookup, lookup-insert}
use nats_web_gateway.Base.Text.{Text, text_eq_refl}
use nats_web_gateway.Pool.{
  Pool, Entry, Limits, World, Round, leased, remove, schedule, evict_changed, evict_changed_from,
  join_attempt, take_lease, use_entry, acquire_round, unused, lifetime_over,
}

-- The entry is usable now: its lifetime is not over, its connection is up, and its credential has
-- not rotated since the connection was authenticated. It stands in the pool under its key.
pub record IsLive (w : World) (key : Text) (p : Pool) (e : Entry) : Type 0 where
  pub valid : e.expired ≡ false
  pub young : lifetime_over p.limits w.now e ≡ false
  pub up : w.connected e.connection ≡ true
  pub current : (w.observed e.identity).1 ≡ e.generation
  pub held : 0 < e.references
  pub pooled : lookup key p.entries ≡ some e

evict_changed_from-current :
    (w : World) (key : Text) (m : Map Entry) (closed : List ℕ) (e : Entry)
    → lookup key (evict_changed_from w m closed).0 ≡ some e
    → e.expired ≡ false
    → (w.observed e.identity).1 ≡ e.generation
unfolding evict_changed_from lookup
evict_changed_from-current w key [] closed e found valid = absurd (ground arith)
evict_changed_from-current w key ((k, x) ∷ m) closed e found valid = ground (
  arith,
  evict_changed_from-current w key m closed e,
  evict_changed_from-current w key m (x.connection ∷ closed) e,
)

join_attempt-ne-leased :
    (now : ℕ) (key : Text) (p : Pool) (e : Entry) → (join_attempt now key p).1 ≢ leased e
unfolding join_attempt
join_attempt-ne-leased now key p e h = ground arith

schedule_keeps :
    (limits : Limits) (now : ℕ) (e : Entry)
    → ((schedule limits now e).expired ≡ e.expired)
      × ((schedule limits now e).created ≡ e.created)
      × ((schedule limits now e).connection ≡ e.connection)
      × ((schedule limits now e).identity ≡ e.identity)
      × ((schedule limits now e).generation ≡ e.generation)
      × ((schedule limits now e).references ≡ e.references)
unfolding schedule
schedule_keeps limits now e = ground arith

take_lease-IsLive :
    (w : World) (key : Text) (e : Entry) (p : Pool) (e' : Entry)
    → e.expired ≡ false
    → lifetime_over p.limits w.now e ≡ false
    → w.connected e.connection ≡ true
    → (w.observed e.identity).1 ≡ e.generation
    → (take_lease w key e p).1 ≡ leased e'
    → IsLive w key (take_lease w key e p).0 e'
unfolding take_lease
take_lease-IsLive w key e p e' valid young up current h =
    let held : Entry = record e { references = e.references + 1; last_used = w.now } in
    let (
      same_expired, same_created, same_connection, same_identity, same_generation, same_references,
    ) =
      schedule_keeps p.limits w.now held in
    let one : schedule p.limits w.now held ≡ e' = ground arith in
    rw (← one) (record {
      valid = same_expired ∙ valid;
      young = rw same_created young;
      up = rw same_connection up;
      current = rw (same_identity, same_generation) current;
      held = rw same_references (omega arith);
      pooled =
          rw (lookup-insert key key (schedule p.limits w.now held) p.entries, text_eq_refl key);
    })

-- If the round ends in a lease, it is live.
abbrev GivesLive : World → Text → Entry → Pool × Round → Type 0
GivesLive w key e r = r.1 ≡ leased e → IsLive w key r.0 e

use_entry-GivesLive :
    (w : World) (key : Text) (p : Pool) (x e : Entry)
    → (x.expired ≡ false → (w.observed x.identity).1 ≡ x.generation)
    → GivesLive w key e (use_entry w key x p)
unfolding use_entry
use_entry-GivesLive w key p x e current =
    if_intro (GivesLive w key e) (x.expired || lifetime_over p.limits w.now x) _ _
      (λ _.
        if_intro (GivesLive w key e) (unused x) _ _
          (λ _ h. absurd (join_attempt-ne-leased w.now key (remove key x p) e h)) (λ _ h. cc))
      (λ fit.
        if_intro (GivesLive w key e) (not (w.connected x.connection)) _ _ (λ _ h. cc)
          (λ up h.
            let valid : x.expired ≡ false = ground arith in
            let young : lifetime_over p.limits w.now x ≡ false = ground arith in
            let up' : w.connected x.connection ≡ true = ground arith in
            take_lease-IsLive w key x p e valid young up' (current valid) h))

-- A lease that `acquire` gives is of an entry that is live at that moment, and is counted.
pub acquire_round-IsLive :
    (w : World) (key : Text) (p : Pool) (e : Entry)
    → (acquire_round w key p).1 ≡ leased e
    → IsLive w key (acquire_round w key p).0 e
unfolding acquire_round evict_changed
acquire_round-IsLive w key p e =
    if_intro (GivesLive w key e) p.stopping _ _ (λ _ h. cc)
      (λ _.
        option_intro (GivesLive w key e) (lookup key (evict_changed w p).entries) _ _
          (λ _ h. absurd (join_attempt-ne-leased w.now key (evict_changed w p) e h))
          (λ x found.
            use_entry-GivesLive w key (evict_changed w p) x e
              (evict_changed_from-current w key p.entries p.closed x (ground (arith, found)))))
