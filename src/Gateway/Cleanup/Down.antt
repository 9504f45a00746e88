-- ===== src/Gateway/Cleanup/Down.antt =====
-- gateway.go: what one operation does to a handler that is down, or takes it down.
use nats_web_gateway.Base.{
  ==_refl, All, Bool, Bool-cases, List, Option-cases, [], arith, false, inl, inr, option_intro,
  refl, some, subst, true, ℕ, ◌==◌, ◌∷◌, ◌≡◌,
}
use nats_web_gateway.Pool.{Pool, close}
use nats_web_gateway.Pool.Stopping.{IsStopped, close-IsStopped}
use nats_web_gateway.Gateway.Provision.{CompiledRoute}
use nats_web_gateway.Gateway.Lifecycle.{
  Lifecycle, Running, Drain, set_ready, begin_stopping, is_ready, is_serving, on_closed,
  drain_connection, settle_drain, cleanup, close_pools, set_pool, starts, already_closed,
  still_reconnecting, refuses,
}

-- The handler has been cleaned up: it is not ready and serves nothing, and the pools of its routes
-- are closed.
pub record IsDown (compiled : List CompiledRoute) (s : Running) : Type 0 where
  pub cleaned : s.lifecycle.cleaned ≡ true
  pub not_ready : is_ready s.lifecycle ≡ false
  pub not_serving : is_serving s.lifecycle ≡ false
  pub pools : All (λ c. (n : ℕ) → c.pool ≡ some n → IsStopped (s.pools n)) compiled

-- The lifecycle's part of it, which the events of the connection keep.
abbrev pub LifecycleDown : Lifecycle → Type 0
LifecycleDown l = (l.cleaned ≡ true) × (l.ready ≡ false) × (l.stopping ≡ true)

pub set_ready-down :
    (ready : Bool) (l : Lifecycle) → LifecycleDown l → LifecycleDown (set_ready ready l)
unfolding set_ready
set_ready-down ready l h = ground arith

pub on_closed-down : (l : Lifecycle) → LifecycleDown l → LifecycleDown (on_closed l)
unfolding on_closed
on_closed-down l h = let (p, q, r) = set_ready-down false l h in (p, q, r)

settle_drain-down :
    (drain : Drain) (in_time : Bool) (c : ℕ) (l : Lifecycle)
    → LifecycleDown l
    → LifecycleDown (settle_drain drain in_time c l)
unfolding settle_drain
settle_drain-down already_closed in_time c l h = h
settle_drain-down still_reconnecting in_time c l h = h
settle_drain-down refuses in_time c l h = h
settle_drain-down starts true c l h = on_closed-down l h
settle_drain-down starts false c l h = h

drain_connection-down :
    (drain : Drain) (in_time : Bool) (l : Lifecycle)
    → LifecycleDown l
    → LifecycleDown (drain_connection drain in_time l)
unfolding drain_connection
drain_connection-down drain in_time l h =
    option_intro LifecycleDown l.connection l (λ c. settle_drain drain in_time c l) (λ _. h)
      (λ c _. settle_drain-down drain in_time c l h)

set_pool-IsStopped :
    (n : ℕ) (pool : Pool) (pools : ℕ → Pool)
    → IsStopped pool
    → (m : ℕ) → IsStopped (pools m)
    → IsStopped (set_pool n pool pools m)
set_pool-IsStopped n pool pools stopped m h = elim (Bool-cases (m == n)) [
  | inl same ↦ rw same stopped
  | inr other ↦ rw other h
]

-- A pool that is closed stays so, and each pool of the routes is closed.
close_pools-kept :
    (compiled : List CompiledRoute) (pools : ℕ → Pool) (m : ℕ)
    → IsStopped (pools m)
    → IsStopped (close_pools compiled pools m)
unfolding close_pools
close_pools-kept [] pools m h = h
close_pools-kept (c ∷ compiled) pools m h = elim (Option-cases c.pool) [
  | inl none' ↦ rw none' (close_pools-kept compiled pools m h)
  | inr (n, own) ↦ rw own (
      close_pools-kept compiled (set_pool n (close (pools n)) pools) m
        (set_pool-IsStopped n (close (pools n)) pools (close-IsStopped (pools n)) m h))
]

abbrev AllStopped : List CompiledRoute → (ℕ → Pool) → Type 0
AllStopped compiled pools = All (λ c. (n : ℕ) → c.pool ≡ some n → IsStopped (pools n)) compiled

close_pools-stops :
    (compiled : List CompiledRoute) (pools : ℕ → Pool)
    → AllStopped compiled (close_pools compiled pools)
unfolding close_pools
close_pools-stops [] pools = tt
close_pools-stops (c ∷ compiled) pools = elim (Option-cases c.pool) [
  | inl none' ↦
      let same : close_pools compiled pools ≡ close_pools (c ∷ compiled) pools =
        rw (none', close_pools) refl in
      (
        (λ n own. absurd (ground arith)),
        subst (AllStopped compiled) same (close_pools-stops compiled pools),
      )
  | inr (n, own) ↦
      let pools' : ℕ → Pool = set_pool n (close (pools n)) pools in
      let same : close_pools compiled pools' ≡ close_pools (c ∷ compiled) pools =
        rw (own, close_pools) refl in
      let stopped : IsStopped (pools' n) = rw (==_refl n) (close-IsStopped (pools n)) in
      (
        (λ m own'.
            let one : n ≡ m = ground arith in
            subst (λ f. IsStopped (f m)) same
              (subst (λ k. IsStopped (close_pools compiled pools' k)) one
                (close_pools-kept compiled pools' n stopped))),
        subst (AllStopped compiled) same (close_pools-stops compiled pools'),
      )
]

-- The first call of `Cleanup` brings the handler down.
pub cleanup-IsDown :
    (compiled : List CompiledRoute) (drain : Drain) (in_time : Bool) (s : Running)
    → s.lifecycle.cleaned ≡ false
    → IsDown compiled (cleanup compiled drain in_time s).0
unfolding cleanup begin_stopping
cleanup-IsDown compiled drain in_time s first =
    let l : Lifecycle = record s.lifecycle {
      stopping = true;
      ready = false;
      stopped = true;
      cleaned = true;
    } in
    let (cleaned, not_ready, stopping) = drain_connection-down drain in_time l (refl, refl, refl) in
    rw first (record {
      cleaned = cleaned;
      not_ready = not_ready;
      not_serving = rw stopping refl;
      pools = close_pools-stops compiled s.pools;
    })
