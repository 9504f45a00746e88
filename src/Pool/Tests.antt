-- ===== src/Pool/Tests.antt =====
-- security_context.go: the theorems on a small run of the pool.
use nats_web_gateway.Base.{[], false, refl, some, true, ℕ, ◌∷◌, ◌≡◌}
use nats_web_gateway.Base.Map.{delete, insert, lookup}
use nats_web_gateway.Base.Text.{Text, text_eq}
use nats_web_gateway.Pool.Stopping.{close_final}
use nats_web_gateway.Pool.Lease.{IsLive, acquire_round-IsLive}
use nats_web_gateway.Pool.Bound.{Reach, Reach-IsBounded, acquires, connects, here, next}
use nats_web_gateway.Pool.Bound.Preserved.{IsBounded}
use nats_web_gateway.Pool.{
  Entry, Limits, Pool, World, acquire_round, close, connection_closed, evict_changed,
  evict_changed_from, evict_idle, evict_idle_from, expire, failed, finish_connect, join_attempt,
  leased, limit_reached, make_room, new_pool, release, remove, schedule, take_lease, use_entry,
}

computing : Unit {0}
unfolding new_pool remove schedule evict_changed evict_changed_from evict_idle evict_idle_from
    make_room join_attempt take_lease use_entry acquire_round finish_connect release expire close
    lookup insert delete text_eq
computing = tt

abbrev limits : Limits
limits = record { max_connections = 1; idle_timeout = 10; max_lifetime = 100 }

abbrev ann : Text
ann = 97 ∷ []

abbrev bob : Text
bob = 98 ∷ []

-- Every connection is up, and context 7 is Ann's.
abbrev at : ℕ → World
at t = record { now = t; connected = λ c. true; observed = λ i. (ann, 0) }

abbrev asked : Pool
asked = (acquire_round (at 0) ann (new_pool limits)).0

abbrev connected : Pool
connected = (finish_connect (at 1) ann 7 (some 70) asked).0

-- A second key finds the pool full.
acquire_round-full : (acquire_round (at 2) bob connected).1 ≡ failed limit_reached
unfolding computing
acquire_round-full = refl

-- Once the entry has been idle for long enough, it makes room.
acquire_round-evicts : (acquire_round (at 12) bob connected).0.closed ≡ 70 ∷ []
unfolding computing
acquire_round-evicts = refl

asked-inflight : lookup ann asked.inflight ≡ some 0
unfolding computing
asked-inflight = refl

Reach-connected : Reach (new_pool limits) connected
Reach-connected =
    next {w = at 1} (next {w = at 0} here (acquires (new_pool limits) ann))
      (connects asked ann 7 0 (some 70) asked-inflight)

Reach-IsBounded_example : IsBounded limits connected
Reach-IsBounded_example = Reach-IsBounded limits connected Reach-connected

abbrev held : Entry
held = record {
  address = 1;
  connection = 70;
  created = 1;
  last_used = 3;
  references = 1;
  expired = false;
  timer = some 101;
  identity = 7;
  generation = 0;
}

acquire_round-held : (acquire_round (at 3) ann connected).1 ≡ leased held
unfolding computing
acquire_round-held = refl

acquire_round-IsLive_example : IsLive (at 3) ann (acquire_round (at 3) ann connected).0 held
acquire_round-IsLive_example = acquire_round-IsLive (at 3) ann connected held acquire_round-held

-- An attempt that was started before the pool was closed ends after it.
abbrev late : Pool
late = (finish_connect (at 5) ann 7 (some 71) (close asked)).0

close-inflight : lookup ann (close asked).inflight ≡ some 0
unfolding computing
close-inflight = refl

close_final_example :
    (late.entries ≡ [])
    × ((w : World) (key : Text) → acquire_round w key late ≡ (late, failed connection_closed))
    × ((w : World) (key : Text) (identity c : ℕ)
        → (finish_connect w key identity (some c) late).0.closed ≡ c ∷ late.closed)
close_final_example =
    close_final asked late
      (next {w = at 5} here (connects (close asked) ann 7 0 (some 71) close-inflight))
