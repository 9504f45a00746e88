-- ===== src/Translation/Tests.antt =====
-- internal/translation/translation.go: the theorems on one request.
use nats_web_gateway.Base.{[], arith, err, false, length, none, ok, refl, some, true, ◌∷◌, ◌≡◌, ◌≤◌}
use nats_web_gateway.Translation.Bounds.{
  content_of, execute_bounds, execute_overflow, execute_reply,
}
use nats_web_gateway.Translation.{
  Context, Message, Reader, Request, Requester, body_broken, body_cancelled, check_reply,
  copy_headers, execute, max_int64, message_of, read_bounded, reply_too_large, request_too_large,
  take_bytes,
}

computing : Unit {0}
unfolding take_bytes read_bounded copy_headers check_reply execute
computing = tt

abbrev live : Context
live = record { done = false; stopped = true }

abbrev body : Reader
body = record { content = 104 ∷ 105 ∷ []; broken = false }

abbrev request : Request
request = record { subject = 115 ∷ []; header_values = λ name. name ∷ []; body = some body }

-- It answers with what it gets.
abbrev echo : Requester
echo message = some (some message)

abbrev echoed : Message
echoed = message_of request ((120 ∷ []) ∷ []) (104 ∷ 105 ∷ [])

execute-sent : (execute live echo request ((120 ∷ []) ∷ []) 2 2).0 ≡ some echoed
unfolding computing
execute-sent = refl

execute-replied : (execute live echo request ((120 ∷ []) ∷ []) 2 2).1 ≡ ok echoed
unfolding computing
execute-replied = refl

-- A body that is one byte too long, a reply that is, a body that fails, and one that is cut off.
other_branches :
    (execute live echo request [] 1 2 ≡ (none, err request_too_large))
    × ((execute live echo request [] 2 1).1 ≡ err reply_too_large)
    × ((execute live echo (record request { body = some (record body { broken = true }) }) [] 9 9).1
        ≡ err body_broken)
    × ((execute (record { done = true; stopped = false }) echo request [] 9 9).1
        ≡ err body_cancelled)
unfolding computing
other_branches = (refl, refl, refl, refl)

execute_bounds_example :
    (echoed.payload ≡ content_of request.body)
    × (length echoed.payload ≤ 2)
    × (echoed.subject ≡ request.subject)
    × (echoed.header ≡ copy_headers request.header_values ((120 ∷ []) ∷ []))
    × ((execute live echo request ((120 ∷ []) ∷ []) 2 2).1 ≡ check_reply (echo echoed) 2)
execute_bounds_example =
    execute_bounds live echo request ((120 ∷ []) ∷ []) 2 2 echoed (omega arith) execute-sent

execute_reply_example :
    (message : Message) × ((execute live echo request ((120 ∷ []) ∷ []) 2 2).0 ≡ some message)
    × (echo message ≡ some (some echoed))
    × (length echoed.payload ≤ 2)
execute_reply_example = execute_reply live echo request ((120 ∷ []) ∷ []) 2 2 echoed execute-replied

execute_overflow_example :
    (execute live echo request [] max_int64 2).0 ≡ some (message_of request [] [])
execute_overflow_example = execute_overflow echo request [] 2 body refl
