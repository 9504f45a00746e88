-- ===== src/Gateway/Lifecycle.antt =====
-- gateway.go: `connectionLifecycle`, with `Cleanup` and the events of the operator connection.
use nats_web_gateway.Base.{
  Bool, List, Option, [], false, if◌then◌else◌, none, not, some, true, ℕ, ◌&&◌, ◌==◌, ◌∷◌,
}
use nats_web_gateway.Pool.{Pool, World, close}
use nats_web_gateway.Pool.Bound
use nats_web_gateway.Gateway.Provision.{CompiledRoute}

pub data CleanupError : Type 0 where
  drain_failed drain_timed_out : CleanupError

-- The two channels are their being closed; `Close` is called on the connections that are listed.
pub record Lifecycle : Type 0 where
  pub connection : Option ℕ
  pub ready : Bool
  pub stopping : Bool
  pub stopped : Bool
  pub closed : Bool
  pub cleaned : Bool
  pub cleanup_error : Option CleanupError
  pub closed_connections : List ℕ

-- A lifecycle as `Provision` makes it, before its connection.
abbrev pub new_lifecycle : Lifecycle
new_lifecycle = record {
  connection = none;
  ready = false;
  stopping = false;
  stopped = false;
  closed = false;
  cleaned = false;
  cleanup_error = none;
  closed_connections = [];
}

unfoldable pub set_ready : Bool → Lifecycle → Lifecycle
set_ready ready l = if ready && l.stopping then l else record l { ready = ready }

unfoldable pub begin_stopping : Lifecycle → Lifecycle
begin_stopping l = record l { stopping = true; ready = false; stopped = true }

abbrev pub is_ready : Lifecycle → Bool
is_ready l = l.ready

abbrev pub is_serving : Lifecycle → Bool
is_serving l = not l.stopping

-- The handler of the closed connection.
unfoldable pub on_closed : Lifecycle → Lifecycle
on_closed l = record (set_ready false l) { closed = true }

-- What `Drain` returns.
pub data Drain : Type 0 where
  starts already_closed still_reconnecting refuses : Drain

abbrev pub close_connection : ℕ → Lifecycle → Lifecycle
close_connection c l = record l { closed_connections = c ∷ l.closed_connections }

-- The end of `Cleanup`. After a drain that starts, either the handler of the closed connection runs
-- in time, or the timer comes first.
unfoldable pub settle_drain : Drain → Bool → ℕ → Lifecycle → Lifecycle
settle_drain already_closed in_time c l = l
settle_drain still_reconnecting in_time c l = close_connection c l
settle_drain refuses in_time c l =
    close_connection c (record l { cleanup_error = some drain_failed })
settle_drain starts true c l = on_closed l
settle_drain starts false c l =
    close_connection c (record l { cleanup_error = some drain_timed_out })

unfoldable pub drain_connection : Drain → Bool → Lifecycle → Lifecycle
drain_connection drain in_time l = elim l.connection [
  | none ↦ l
  | some c ↦ settle_drain drain in_time c l
]

-- A provisioned handler that runs: its lifecycle and its pools.
pub record Running : Type 0 where
  pub lifecycle : Lifecycle
  pub pools : ℕ → Pool

abbrev pub set_pool : ℕ → Pool → (ℕ → Pool) → ℕ → Pool
set_pool n pool pools m = if m == n then pool else pools m

-- The loop over the routes, which closes a pool that routes share once for each of them.
unfoldable pub close_pools : List CompiledRoute → (ℕ → Pool) → ℕ → Pool
close_pools [] pools = pools
close_pools (candidate ∷ candidates) pools = elim candidate.pool [
  | none ↦ close_pools candidates pools
  | some n ↦ close_pools candidates (set_pool n (close (pools n)) pools)
]

-- `Cleanup`, whose body runs once.
unfoldable pub cleanup : List CompiledRoute → Drain → Bool → Running → Running × Option CleanupError
cleanup compiled drain in_time s =
    if s.lifecycle.cleaned
    then (s, s.lifecycle.cleanup_error)
    else let l =
        drain_connection drain in_time (record (begin_stopping s.lifecycle) { cleaned = true }) in
      (record { lifecycle = l; pools = close_pools compiled s.pools }, l.cleanup_error)

-- The events of a handler that runs: those of its operator connection, `Cleanup`, and the steps of
-- its pools, which the requests take.
pub data Step (compiled : List CompiledRoute) : Running → Running → Type 0 where
  disconnects :
      (s : Running) → Step compiled s (record s { lifecycle = set_ready false s.lifecycle })
  reconnects : (s : Running) → Step compiled s (record s { lifecycle = set_ready true s.lifecycle })
  closes : (s : Running) → Step compiled s (record s { lifecycle = on_closed s.lifecycle })
  cleans :
      (s : Running) (drain : Drain) (in_time : Bool)
      → Step compiled s (cleanup compiled drain in_time s).0
  pool_steps :
      (s : Running) (w : World) (n : ℕ) (pool : Pool)
      → Bound.Step w (s.pools n) pool
      → Step compiled s (record s { pools = set_pool n pool s.pools })

pub data Reach (compiled : List CompiledRoute) (start : Running) : Running → Type 0 where
  here : Reach compiled start start
  next : {s t : Running} → Reach compiled start s → Step compiled s t → Reach compiled start t
