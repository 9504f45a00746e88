-- ===== src/Pool/Bound.antt =====
-- security_context.go: the pool's steps, and the limit on connections.
pub mod Preserved
use nats_web_gateway.Base.{
  Option, Option-cases, arith, if_intro, inl, inr, none, refl, some, ℕ, ◌&&◌, ◌||◌, ◌≡◌,
}
use nats_web_gateway.Base.Map.{lookup}
use nats_web_gateway.Base.Text.{Text}
use nats_web_gateway.Pool.Bound.Preserved.{
  IsBounded, acquire_round-IsBounded, finish_connect-IsBounded, insert-IsBounded, remove-IsBounded,
  same_entry-lookup,
}
use nats_web_gateway.Pool.{
  schedule, idle_over, settle_timed, settle_released, Pool, Entry, Limits, World, new_pool,
  acquire_round, finish_connect, release, expire, close, same_entry, unused, lifetime_over,
}

-- What one holder of the lock does; the attempt that ends is one that was started.
pub data Step (w : World) : Pool → Pool → Type 0 where
  acquires : (p : Pool) (key : Text) → Step w p (acquire_round w key p).0
  connects :
      (p : Pool) (key : Text) (identity attempt : ℕ) (result : Option ℕ)
      → lookup key p.inflight ≡ some attempt
      → Step w p (finish_connect w key identity result p).0
  releases : (p : Pool) (key : Text) (address : ℕ) → Step w p (release w.now key address p)
  expires : (p : Pool) (key : Text) (address : ℕ) → Step w p (expire w.now key address p)
  closes : (p : Pool) → Step w p (close p)

-- Any sequence of steps, each in surroundings of its own.
pub data Reach (start : Pool) : Pool → Type 0 where
  here : Reach start start
  next : {w : World} {p q : Pool} → Reach start p → Step w p q → Reach start q

module _ {limits : Limits} where
  settle_released-IsBounded :
      (now : ℕ) (key : Text) (e old : Entry) {p : Pool}
      → lookup key p.entries ≡ some old
      → IsBounded limits p
      → IsBounded limits (settle_released now key e p)
  unfolding settle_released
  settle_released-IsBounded now key e old {p} found b =
      if_intro (IsBounded limits)
        (unused e && (p.stopping || e.expired || lifetime_over p.limits now e)) _ _
        (λ _. remove-IsBounded key e b)
        (λ _. insert-IsBounded key old (schedule p.limits now e) found b)

  settle_timed-IsBounded :
      (now : ℕ) (key : Text) (e old : Entry) {p : Pool}
      → lookup key p.entries ≡ some old
      → IsBounded limits p
      → IsBounded limits (settle_timed now key e p)
  unfolding settle_timed
  settle_timed-IsBounded now key e old {p} found b =
      if_intro (IsBounded limits)
        (unused e && (lifetime_over p.limits now e || idle_over p.limits now e)) _ _
        (λ _. remove-IsBounded key e b)
        (λ _.
          if_intro (IsBounded limits) e.expired _ _
            (λ _. insert-IsBounded key old (record e { timer = none }) found b)
            (λ _. insert-IsBounded key old (schedule p.limits now e) found b))

  release-IsBounded :
      (now : ℕ) (key : Text) (address : ℕ) {p : Pool}
      → IsBounded limits p
      → IsBounded limits (release now key address p)
  unfolding release
  release-IsBounded now key address {p} b = elim (Option-cases (same_entry key address p)) [
    | inl gone ↦ rw (gone, release) b
    | inr (e, found) ↦
        rw (found, release)
          (settle_released-IsBounded now key _ e (same_entry-lookup key address p e found) b)
  ]

  expire-IsBounded :
      (now : ℕ) (key : Text) (address : ℕ) {p : Pool}
      → IsBounded limits p
      → IsBounded limits (expire now key address p)
  unfolding expire
  expire-IsBounded now key address {p} b = elim (Option-cases (same_entry key address p)) [
    | inl gone ↦ rw (gone, expire) b
    | inr (e, found) ↦
        rw (found, expire)
          (settle_timed-IsBounded now key
            (record e { expired = e.expired || lifetime_over p.limits now e }) e
            (same_entry-lookup key address p e found) b)
  ]

  close-IsBounded : {p : Pool} → IsBounded limits p → IsBounded limits (close p)
  unfolding close
  close-IsBounded b = record { same_limits = b.same_limits; within = omega (arith, b.within) }

  Step-IsBounded : {w : World} {p q : Pool} → Step w p q → IsBounded limits p → IsBounded limits q
  Step-IsBounded {w} (acquires p key) b = acquire_round-IsBounded w key b
  Step-IsBounded {w} (connects p key identity attempt result started) b =
      finish_connect-IsBounded w key identity attempt result started b
  Step-IsBounded {w} (releases p key address) b = release-IsBounded w.now key address b
  Step-IsBounded {w} (expires p key address) b = expire-IsBounded w.now key address b
  Step-IsBounded (closes p) b = close-IsBounded b

-- In every state that a new pool reaches, by any interleaving of requests, finished attempts,
-- releases, timers and shutdown in any surroundings, the pooled connections and the attempts to
-- connect together are at most `max_connections`.
pub Reach-IsBounded : (limits : Limits) (p : Pool) → Reach (new_pool limits) p → IsBounded limits p
unfolding new_pool
Reach-IsBounded limits p here = record { same_limits = refl; within = omega arith }
Reach-IsBounded limits p (next r s) = Step-IsBounded s (Reach-IsBounded limits _ r)
