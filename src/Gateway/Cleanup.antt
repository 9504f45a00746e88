-- ===== src/Gateway/Cleanup.antt =====
-- gateway.go: a handler after `Cleanup`.
pub mod Down
use nats_web_gateway.Base.{
  ==_iff, All-map, Any, Bool, Bool-cases, List, Option, ap, arith, false, inl, inr, none, refl,
  some, subst, sym, true, ℕ, ◌==◌, ◌↔◌, ◌≡◌, ◌≢◌, ◌⊎◌,
}
use nats_web_gateway.Gateway.Cleanup.Down.{
  IsDown, LifecycleDown, cleanup-IsDown, on_closed-down, set_ready-down,
}
use nats_web_gateway.Pool.Stopping.{IsStopped, Step-IsStopped}
use nats_web_gateway.Gateway.Provision.{CompiledRoute}
use nats_web_gateway.Gateway.Lifecycle.{
  Lifecycle, Running, Drain, CleanupError, Step, Reach, here, next, disconnects, reconnects, closes,
  cleans, pool_steps, set_ready, begin_stopping, on_closed, drain_connection, settle_drain, cleanup,
  close_pools, starts, already_closed, still_reconnecting, refuses,
}

-- A later call changes nothing, and gives the first one's result.
pub cleanup-again :
    (compiled : List CompiledRoute) (drain : Drain) (in_time : Bool) (s : Running)
    → s.lifecycle.cleaned ≡ true
    → cleanup compiled drain in_time s ≡ (s, s.lifecycle.cleanup_error)
unfolding cleanup
cleanup-again compiled drain in_time s before = ground arith

module _ {compiled : List CompiledRoute} where
  IsDown-of_lifecycle :
      {s : Running} (l : Lifecycle)
      → (LifecycleDown s.lifecycle → LifecycleDown l)
      → IsDown compiled s
      → IsDown compiled (record s { lifecycle = l })
  IsDown-of_lifecycle {s} l keeps d =
      let (cleaned, not_ready, stopping) =
        keeps (d.cleaned, d.not_ready, ground (arith, d.not_serving)) in
      record {
        cleaned = cleaned;
        not_ready = not_ready;
        not_serving = rw stopping refl;
        pools = d.pools;
      }

  Step-IsDown : {s t : Running} → Step compiled s t → IsDown compiled s → IsDown compiled t
  Step-IsDown (disconnects s) d =
      IsDown-of_lifecycle (set_ready false s.lifecycle) (set_ready-down false s.lifecycle) d
  Step-IsDown (reconnects s) d =
      IsDown-of_lifecycle (set_ready true s.lifecycle) (set_ready-down true s.lifecycle) d
  Step-IsDown (closes s) d =
      IsDown-of_lifecycle (on_closed s.lifecycle) (on_closed-down s.lifecycle) d
  Step-IsDown (cleans s drain in_time) d =
      subst (λ r. IsDown compiled r)
        (ap (λ (r : Running × Option CleanupError). r.0)
          (sym (cleanup-again compiled drain in_time s d.cleaned)))
        d
  Step-IsDown (pool_steps s w n pool st) d = record {
    cleaned = d.cleaned;
    not_ready = d.not_ready;
    not_serving = d.not_serving;
    pools =
        All-map
          (λ c h m own. elim (Bool-cases (m == n)) [
            | inl same ↦
                let one : m ≡ n = (==_iff m n).0 same in
                rw same (Step-IsStopped st (subst (λ k. IsStopped (s.pools k)) one (h m own)))
            | inr other ↦ rw other (h m own)
          ])
          compiled d.pools;
  }

  Reach-IsDown : {s t : Running} → IsDown compiled s → Reach compiled s t → IsDown compiled t
  Reach-IsDown d here = d
  Reach-IsDown d (next r st) = Step-IsDown st (Reach-IsDown d r)

-- After the first call of `Cleanup`, in every state that events of the connection, requests and
-- further calls lead to, the handler is not ready, serves nothing, and each pool of its routes is
-- closed and holds no connection; also a connection that comes back does not make it ready.
pub cleanup_final :
    (compiled : List CompiledRoute) (drain : Drain) (in_time : Bool) (s t : Running)
    → s.lifecycle.cleaned ≡ false
    → Reach compiled (cleanup compiled drain in_time s).0 t
    → IsDown compiled t
cleanup_final compiled drain in_time s t first r =
    Reach-IsDown (cleanup-IsDown compiled drain in_time s first) r

-- The connection is closed at the end of a cleanup.
abbrev pub ConnectionClosed : Drain → ℕ → Lifecycle → Type 0
ConnectionClosed drain c l =
    (drain ≡ already_closed) ⊎ (l.closed ≡ true) ⊎ Any (λ c'. c' ≡ c) l.closed_connections

abbrev pub DrainsWell : Drain → Bool → Type 0
DrainsWell drain in_time = (drain ≢ refuses) × (drain ≡ starts → in_time ≡ true)

settle_drain-closes :
    (drain : Drain) (in_time : Bool) (c : ℕ) (l : Lifecycle)
    → l.cleanup_error ≡ none
    → ConnectionClosed drain c (settle_drain drain in_time c l)
      × (((settle_drain drain in_time c l).cleanup_error ≡ none) ↔ DrainsWell drain in_time)
unfolding settle_drain on_closed set_ready
settle_drain-closes already_closed in_time c l clean =
    (inl refl, ((λ _. ((λ q. ground arith), λ q. ground arith)), λ _. clean))
settle_drain-closes still_reconnecting in_time c l clean =
    (inr (inr (inl refl)), ((λ _. ((λ q. ground arith), λ q. ground arith)), λ _. clean))
settle_drain-closes refuses in_time c l clean =
    (inr (inr (inl refl)), ((λ q. ground arith), λ well. absurd (well.0 refl)))
settle_drain-closes starts true c l clean =
    (inr (inl refl), ((λ _. ((λ q. ground arith), λ q. refl)), λ _. ground arith))
settle_drain-closes starts false c l clean =
    (inr (inr (inl refl)), ((λ q. ground arith), λ well. absurd (ground (arith, well.1 refl))))

cleanup-first :
    (compiled : List CompiledRoute) (drain : Drain) (in_time : Bool) (s : Running) (c : ℕ)
    → s.lifecycle.cleaned ≡ false
    → s.lifecycle.connection ≡ some c
    → let l =
        settle_drain drain in_time c (record (begin_stopping s.lifecycle) { cleaned = true }) in
      cleanup compiled drain in_time s
      ≡ (record { lifecycle = l; pools = close_pools compiled s.pools }, l.cleanup_error)
unfolding cleanup begin_stopping drain_connection
cleanup-first compiled drain in_time s c first own = ground arith

-- Whatever the drain of the operator connection gives, the first call of `Cleanup` ends with the
-- connection closed: it was closed before, or its handler has run, or `Close` is called on it. The
-- call gives no error exactly if the drain is not refused and, when it starts, ends in time.
pub cleanup-closes :
    (compiled : List CompiledRoute) (drain : Drain) (in_time : Bool) (s : Running) (c : ℕ)
    → s.lifecycle.cleaned ≡ false
    → s.lifecycle.cleanup_error ≡ none
    → s.lifecycle.connection ≡ some c
    → ConnectionClosed drain c (cleanup compiled drain in_time s).0.lifecycle
      × (((cleanup compiled drain in_time s).1 ≡ none) ↔ DrainsWell drain in_time)
unfolding begin_stopping
cleanup-closes compiled drain in_time s c first clean own =
    let l : Lifecycle = record (begin_stopping s.lifecycle) { cleaned = true } in
    let e = cleanup-first compiled drain in_time s c first own in
    subst (λ r. ConnectionClosed drain c r.0.lifecycle × ((r.1 ≡ none) ↔ DrainsWell drain in_time))
      (sym e) (settle_drain-closes drain in_time c l clean)
