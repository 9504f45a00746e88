-- ===== src/Pool/Stopping.antt =====
-- security_context.go: the pool after `close`.
use nats_web_gateway.Base.{Option, [], ap, arith, none, refl, some, subst, sym, true, ℕ, ◌∷◌, ◌≡◌}
use nats_web_gateway.Base.Map.{lookup}
use nats_web_gateway.Base.Text.{Text}
use nats_web_gateway.Pool.{
  Pool, World, connection_closed, Round, failed, acquire_round, finish_connect, release, expire,
  close, same_entry,
}
use nats_web_gateway.Pool.Bound.{
  Step, acquires, connects, releases, expires, closes, Reach, here, next,
}

-- The pool refuses each request, and holds no entry.
pub record IsStopped (p : Pool) : Type 0 where
  pub stopped : p.stopping ≡ true
  pub empty : p.entries ≡ []

acquire_round-stopped :
    (w : World) (key : Text) (p : Pool)
    → IsStopped p
    → acquire_round w key p ≡ (p, failed connection_closed)
unfolding acquire_round
acquire_round-stopped w key p s = rw s.stopped

finish_connect-IsStopped :
    (w : World) (key : Text) (identity : ℕ) (result : Option ℕ) (p : Pool)
    → IsStopped p
    → IsStopped (finish_connect w key identity result p).0
unfolding finish_connect
finish_connect-IsStopped w key identity none p s = record { stopped = s.stopped; empty = s.empty }
finish_connect-IsStopped w key identity (some c) p s = ground arith

same_entry-stopped :
    (key : Text) (address : ℕ) (p : Pool) → IsStopped p → same_entry key address p ≡ none
unfolding lookup
same_entry-stopped key address p s = ground arith

pub Step-IsStopped : {w : World} {p q : Pool} → Step w p q → IsStopped p → IsStopped q
unfolding release expire close
Step-IsStopped {w} (acquires p key) s =
    subst IsStopped (sym (ap (λ (r : Pool × Round). r.0) (acquire_round-stopped w key p s))) s
Step-IsStopped {w} (connects p key identity attempt result started) s =
    finish_connect-IsStopped w key identity result p s
Step-IsStopped (releases p key address) s = rw (same_entry-stopped key address p s, release) s
Step-IsStopped (expires p key address) s = rw (same_entry-stopped key address p s, expire) s
Step-IsStopped (closes p) s = record { stopped = refl; empty = refl }

pub close-IsStopped : (p : Pool) → IsStopped (close p)
unfolding close
close-IsStopped p = record { stopped = refl; empty = refl }

Reach-IsStopped : {p q : Pool} → IsStopped p → Reach p q → IsStopped q
Reach-IsStopped s here = s
Reach-IsStopped s (next r st) = Step-IsStopped st (Reach-IsStopped s r)

-- After `close`, in every state that any steps lead to, the pool holds no entry, every round of
-- `acquire` fails and changes nothing, and a connection that an attempt still brings is closed.
pub close_final :
    (p q : Pool)
    → Reach (close p) q
    → (q.entries ≡ [])
      × ((w : World) (key : Text) → acquire_round w key q ≡ (q, failed connection_closed))
      × ((w : World) (key : Text) (identity c : ℕ)
          → (finish_connect w key identity (some c) q).0.closed ≡ c ∷ q.closed)
unfolding close finish_connect
close_final p q r =
    let s = Reach-IsStopped (close-IsStopped p) r in
    (s.empty, (λ w key. acquire_round-stopped w key q s), (λ w key identity c. rw s.stopped))
