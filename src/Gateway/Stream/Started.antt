-- ===== src/Gateway/Stream/Started.antt =====
-- core_sse.go: what a stream has passed, and what its refusals are.
use nats_web_gateway.Base.{[], false, none, true, ℕ, ◌≡◌, ◌≢◌, ◌⊎◌}
use nats_web_gateway.Base.Int.{pos, to_nat}
use nats_web_gateway.Base.Text.{Text}
use Prim.Native.String.{String}
use nats_web_gateway.CoreSse.Loop.{stream_body}
use nats_web_gateway.Config.{CoreSse}
use nats_web_gateway.Reply.{Answer}
use nats_web_gateway.Gateway.Serve.{is_available}
use nats_web_gateway.Gateway.Serve.Proper.{IsError}
use nats_web_gateway.Gateway.Failures.{Served, answered, panicked, silent}
use nats_web_gateway.Gateway.Lifecycle.{Lifecycle}
use nats_web_gateway.Gateway.Provision.{CompiledRoute}
use nats_web_gateway.Gateway.Stream.{StreamSetup, Streamed, refused, streamed}

-- The route has the section of its stream, and a security context if it has a pool.
abbrev pub IsComplete : CompiledRoute → Type 0
IsComplete candidate =
    (candidate.config.core_sse ≢ none)
    × ((candidate.pool ≡ none) ⊎ (candidate.config.security_context ≢ none))

-- Nothing is written, or an error of the gateway.
abbrev pub IsRefusal : Served → Type 0
IsRefusal (answered a) = IsError [] a
IsRefusal silent = Unit {0}
IsRefusal panicked = ⊥

-- A stream that has started: the subscription stands, and nothing has ended its setup.
abbrev pub IsStarted : StreamSetup → ℕ → Text → Answer → Type 0
IsStarted setup max_reply subject a =
    (setup.deadline_passed ≡ false)
    × (setup.subscribe subject ≡ none)
    × (setup.flush ≡ none)
    × (setup.cause ≡ none)
    × (a.status ≡ pos 200)
    × (a.body ≡ stream_body max_reply setup.events)

abbrev pub IsStreamed : StreamSetup → ℕ → Text → Streamed → Type 0
IsStreamed setup max_reply subject (refused served) = IsRefusal served
IsStreamed setup max_reply subject (streamed a) = IsStarted setup max_reply subject a

-- What a request for a stream ends in, behind the quota.
abbrev pub Ends : StreamSetup → CompiledRoute → Lifecycle → Text → Streamed → Type 0
Ends setup candidate l subject (refused served) = IsRefusal served
Ends setup candidate l subject (streamed a) =
    (is_available candidate l ≡ true)
    × IsStarted setup (to_nat candidate.config.max_reply_bytes) subject a
