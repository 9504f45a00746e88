-- ===== src/Pool.antt =====
-- security_context.go: the pool of NATS connections, one for each security context.
pub mod Bound
pub mod Lease
pub mod Stopping
mod Tests
use nats_web_gateway.Base.{
  Bool, List, Option, [], false, if◌then◌else◌, leb, length, ltb, map, none, not, some, true, ℕ,
  ◌&&◌, ◌++◌, ◌+◌, ◌-◌, ◌==◌, ◌||◌, ◌∷◌,
}
use nats_web_gateway.Base.Map.{Map, delete, insert, lookup}
use nats_web_gateway.Base.Text.{Text}

-- A connection, an adapted context and a moment are numbers; time does not run backwards.
pub record Entry : Type 0 where
  -- The identity of the Go pointer.
  pub address : ℕ
  pub connection : ℕ
  pub created : ℕ
  pub last_used : ℕ
  pub references : ℕ
  pub expired : Bool
  -- When the timer fires, if one is set.
  pub timer : Option ℕ
  pub identity : ℕ
  pub generation : ℕ

pub record Limits : Type 0 where
  pub max_connections : ℕ
  pub idle_timeout : ℕ
  pub max_lifetime : ℕ

pub record Pool : Type 0 where
  pub entries : Map Entry
  -- The attempts to connect, by their addresses.
  pub inflight : Map ℕ
  pub limits : Limits
  pub stopping : Bool
  -- Every connection on which `Close` was called, the last one first.
  pub closed : List ℕ
  -- The next address.
  pub fresh : ℕ

-- What the program asks of its surroundings at one moment: the time, whether a connection is up,
-- and the identity that an adapted context was last observed with.
pub record World : Type 0 where
  pub now : ℕ
  pub connected : ℕ → Bool
  pub observed : ℕ → Text × ℕ

pub data AcquireError : Type 0 where
  connection_closed reconnecting limit_reached connect_failed : AcquireError

-- A round of `acquire` fails, gives a lease of an entry, or waits for an attempt.
pub data Round : Type 0 where
  failed : AcquireError → Round
  leased : Entry → Round
  waiting : ℕ → Round

-- `newSecurityContextPool`
unfoldable pub new_pool : Limits → Pool
new_pool limits = record {
  entries = [];
  inflight = [];
  limits = limits;
  stopping = false;
  closed = [];
  fresh = 0;
}

abbrev pub lifetime_over : Limits → ℕ → Entry → Bool
lifetime_over limits now e = leb limits.max_lifetime (now - e.created)

abbrev pub idle_over : Limits → ℕ → Entry → Bool
idle_over limits now e = leb limits.idle_timeout (now - e.last_used)

abbrev pub unused : Entry → Bool
unused e = e.references == 0

-- `removeLocked`
unfoldable pub remove : Text → Entry → Pool → Pool
remove key e p = record p { entries = delete key p.entries; closed = e.connection ∷ p.closed }

-- `scheduleLocked`: the timer is set to the end of the lifetime, or to the end of the idle time if
-- that comes first and nobody holds the entry; never to the past.
unfoldable pub schedule : Limits → ℕ → Entry → Entry
schedule limits now e =
    let lifetime = e.created + limits.max_lifetime - now in
    let idle = e.last_used + limits.idle_timeout - now in
    if e.expired
    then record e { timer = none }
    else if unused e && ltb idle lifetime
    then record e { timer = some (now + idle) }
    else record e { timer = some (now + lifetime) }

-- `evictChangedLocked`: the loop over the entries, with the connections closed so far.
unfoldable pub evict_changed_from : World → Map Entry → List ℕ → Map Entry × List ℕ
evict_changed_from w [] closed = ([], closed)
evict_changed_from w ((key, e) ∷ rest) closed = elim ((w.observed e.identity).1 == e.generation) [
  | true ↦ let (kept, closed') = evict_changed_from w rest closed in ((key, e) ∷ kept, closed')
  | false ↦ elim (unused e) [
    | true ↦ evict_changed_from w rest (e.connection ∷ closed)
    | false ↦
        let (kept, closed') = evict_changed_from w rest closed in
        ((key, record e { expired = true }) ∷ kept, closed')
  ]
]

unfoldable pub evict_changed : World → Pool → Pool
evict_changed w p =
    let (kept, closed) = evict_changed_from w p.entries p.closed in
    record p { entries = kept; closed = closed }

-- `evictIdleLocked`
unfoldable pub evict_idle_from : Limits → ℕ → Map Entry → List ℕ → Map Entry × List ℕ
evict_idle_from limits now [] closed = ([], closed)
evict_idle_from limits now ((key, e) ∷ rest) closed =
    elim (unused e && (e.expired || idle_over limits now e)) [
      | true ↦ evict_idle_from limits now rest (e.connection ∷ closed)
      | false ↦
          let (kept, closed') = evict_idle_from limits now rest closed in ((key, e) ∷ kept, closed')
    ]

unfoldable pub evict_idle : ℕ → Pool → Pool
evict_idle now p =
    let (kept, closed) = evict_idle_from p.limits now p.entries p.closed in
    record p { entries = kept; closed = closed }

abbrev pub size : Pool → ℕ
size p = length p.entries + length p.inflight

abbrev pub is_full : Pool → Bool
is_full p = leb p.limits.max_connections (size p)

-- The eviction before the second test of the limit.
unfoldable pub make_room : ℕ → Pool → Pool
make_room now p = if is_full p then evict_idle now p else p

abbrev start_attempt : Text → Pool → Pool
start_attempt key p = record p { inflight = insert key p.fresh p.inflight; fresh = p.fresh + 1 }

-- The end of a round without a usable entry: join the attempt for the key, or start one.
unfoldable pub join_attempt : ℕ → Text → Pool → Pool × Round
join_attempt now key p = elim (lookup key p.inflight) [
  | some attempt ↦ (p, waiting attempt)
  | none ↦
      let p' = make_room now p in
      if is_full p' then (p', failed limit_reached) else (start_attempt key p', waiting p'.fresh)
]

-- The lease of a live entry.
unfoldable pub take_lease : World → Text → Entry → Pool → Pool × Round
take_lease w key e p =
    let e' =
      schedule p.limits w.now (record e { references = e.references + 1; last_used = w.now }) in
    (record p { entries = insert key e' p.entries }, leased e')

unfoldable pub use_entry : World → Text → Entry → Pool → Pool × Round
use_entry w key e p =
    if e.expired || lifetime_over p.limits w.now e
    then (if unused e then join_attempt w.now key (remove key e p) else (
      record p { entries = insert key (record e { expired = true }) p.entries },
      failed reconnecting,
    ))
    else if not (w.connected e.connection)
    then (p, failed reconnecting)
    else take_lease w key e p

-- One round of the loop of `acquire`, while the lock is held, for the refreshed key.
unfoldable pub acquire_round : World → Text → Pool → Pool × Round
acquire_round w key p =
    if p.stopping
    then (p, failed connection_closed)
    else let p' = evict_changed w p in
      elim (lookup key p'.entries) [
        | none ↦ join_attempt w.now key p'
        | some e ↦ use_entry w key e p'
      ]

-- The end of `connectContext`, with the connection or `none` for the dialling error; the result is
-- the attempt's error.
unfoldable pub finish_connect : World → Text → ℕ → Option ℕ → Pool → Pool × Option AcquireError
finish_connect w key identity none p =
    (record p { inflight = delete key p.inflight }, some connect_failed)
finish_connect w key identity (some connection) p =
    let p' = record p { inflight = delete key p.inflight } in
    let (observed_key, generation) = w.observed identity in
    if p.stopping
    then (record p' { closed = connection ∷ p.closed }, some connection_closed)
    else elim (lookup observed_key p.entries) [
      | some e ↦ (record p' { closed = connection ∷ p.closed }, none)
      | none ↦
          let e : Entry = record {
            address = p.fresh;
            connection = connection;
            created = w.now;
            last_used = w.now;
            references = 0;
            expired = false;
            timer = none;
            identity = identity;
            generation = generation;
          } in
          (
            record p' {
              entries = insert observed_key (schedule p.limits w.now e) p.entries;
              fresh = p.fresh + 1;
            },
            none,
          )
    ]

-- The entry of the key, if it is still the one of the address.
abbrev pub same_entry : Text → ℕ → Pool → Option Entry
same_entry key address p = elim (lookup key p.entries) [
  | none ↦ none
  | some e ↦ if e.address == address then some e else none
]

-- `release`, which a lease calls once: what becomes of the entry that is given back.
unfoldable pub settle_released : ℕ → Text → Entry → Pool → Pool
settle_released now key e p =
    if unused e && (p.stopping || e.expired || lifetime_over p.limits now e)
    then remove key e p
    else record p { entries = insert key (schedule p.limits now e) p.entries }

unfoldable pub release : ℕ → Text → ℕ → Pool → Pool
unfolding settle_released
release now key address p = elim (same_entry key address p) [
  | none ↦ p
  | some e ↦ settle_released now key (record e { references = e.references - 1; last_used = now }) p
]

-- `expire`, which the timer of an entry calls: what becomes of the entry, which is marked if its
-- lifetime is over.
unfoldable pub settle_timed : ℕ → Text → Entry → Pool → Pool
settle_timed now key e p =
    if unused e && (lifetime_over p.limits now e || idle_over p.limits now e)
    then remove key e p
    else if e.expired
    then record p { entries = insert key (record e { timer = none }) p.entries }
    else record p { entries = insert key (schedule p.limits now e) p.entries }

unfoldable pub expire : ℕ → Text → ℕ → Pool → Pool
unfolding settle_timed
expire now key address p = elim (same_entry key address p) [
  | none ↦ p
  | some e ↦
      settle_timed now key (record e { expired = e.expired || lifetime_over p.limits now e }) p
]

-- `close`
unfoldable pub close : Pool → Pool
close p = record p {
  entries = [];
  stopping = true;
  closed = map (λ b. b.1.connection) p.entries ++ p.closed;
}
