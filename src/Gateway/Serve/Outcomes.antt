-- ===== src/Gateway/Serve/Outcomes.antt =====
-- gateway.go: what a client can be answered.
pub mod Steps
use nats_web_gateway.Base.{
  List, Result-cases, [], arith, if_intro, inl, inr, not, ok, refl, subst, ◌≡◌, ◌⊎◌,
}
use nats_web_gateway.Base.Int.{pos}
use nats_web_gateway.Base.Text.{Text, bytes, contains, text_eq}
use nats_web_gateway.Gateway.Serve.Outcomes.Steps.{
  connection_of-IsProper, forward-IsProper, identify-IsProper,
}
use nats_web_gateway.Gateway.Serve.Proper.{
  vary, IsError, IsReply, IsProper, error_texts, IsProper-subst, gateway_error-IsProper,
}
use nats_web_gateway.Gateway.Serve.{
  accept_of, is_available, serve_as, serve_route, with_accept, forward, HttpRequest, connection_of,
  identify, Upstream,
}
use nats_web_gateway.Negotiation.Selection.{
  Selected, not_acceptable, panics, select_representation, selected,
}
use nats_web_gateway.Gateway.Failures.{answered, gateway_error, panicked}
use nats_web_gateway.Gateway.Provision.{CompiledRoute}
use nats_web_gateway.Gateway.Lifecycle.{Lifecycle}
use nats_web_gateway.Reply.{Answer}
use nats_web_gateway.Config.{Route, elements}
use nats_web_gateway.Translation
use nats_web_gateway.Config.RouteRules.{validate_statuses}

serve_as-IsProper :
    (env : Upstream) (candidate : CompiledRoute) (l : Lifecycle) (r : HttpRequest)
    (header : List (Text × Text)) (Chosen : Text → Type 0) (subject representation : Text)
    → validate_statuses (elements candidate.config.response.service_error_statuses) ≡ ok tt
    → Chosen representation
    → IsProper env candidate.config subject header Chosen
        (serve_as env candidate l r header subject representation)
unfolding serve_as
serve_as-IsProper env candidate l r header Chosen subject representation accepted picked =
    let f = with_accept candidate.config representation r in
    elim (Result-cases (connection_of env candidate l r header)) [
      | inr (served, failed) ↦
          IsProper-subst env candidate.config subject header Chosen served (ground arith) (
            connection_of-IsProper env candidate.config subject header Chosen candidate l r served
              failed)
      | inl (connection, found) ↦
          elim (Result-cases (identify env candidate.config header connection f)) [
            | inr (served, failed) ↦
                IsProper-subst env candidate.config subject header Chosen served (ground arith) (
                  identify-IsProper env candidate.config subject header Chosen connection f served
                    failed)
            | inl (f', known) ↦
                IsProper-subst env candidate.config subject header Chosen
                  (forward env candidate.config header representation subject r.body connection f')
                  (ground arith)
                  (forward-IsProper env candidate.config subject header Chosen representation r.body
                    connection f' accepted picked)
          ]
    ]

-- The representation is the one that the request selects.
abbrev pub IsSelected : Upstream → HttpRequest → Route → Text → Type 0
IsSelected env r config representation =
    select_representation env.media (accept_of r) config.response ≡ selected representation

IsProper-serve_route :
    (env : Upstream) (candidate : CompiledRoute) (l : Lifecycle) (r : HttpRequest) (subject : Text)
    → validate_statuses (elements candidate.config.response.service_error_statuses) ≡ ok tt
    → IsProper env candidate.config subject
        (vary candidate.config)
        (IsSelected env r candidate.config)
        (serve_route env candidate l r subject)
unfolding serve_route error_texts contains text_eq bytes
IsProper-serve_route env candidate l r subject accepted =
    if_intro
      (IsProper env candidate.config subject (vary candidate.config)
        (IsSelected env r candidate.config))
      (not (is_available candidate l)) _ _
      (λ _.
        inl (
          [],
          pos 503,
          bytes "service unavailable",
          refl,
          inl refl,
          refl,
          omega arith,
          omega arith,
        ))
      (λ _.
        by_choice (select_representation env.media (accept_of r) candidate.config.response) refl)
  where
    by_choice :
        (choice : Selected)
        → select_representation env.media (accept_of r) candidate.config.response ≡ choice
        → IsProper env candidate.config subject
            (vary candidate.config)
            (IsSelected env r candidate.config)
            (elim choice [
              | panics ↦ panicked
              | not_acceptable ↦
                  gateway_error (vary candidate.config) 406 "no acceptable representation"
              | selected representation ↦
                  serve_as env candidate l r (vary candidate.config) subject representation
            ])
    by_choice panics q = tt
    by_choice not_acceptable q =
        gateway_error-IsProper env candidate.config subject (vary candidate.config)
          (IsSelected env r candidate.config) 406 "no acceptable representation" refl (omega arith)
          (omega arith)
    by_choice (selected representation) q =
        serve_as-IsProper env candidate l r (vary candidate.config)
          (IsSelected env r candidate.config) subject representation accepted q

-- Whatever the libraries, the services and the client do, a route with an accepted table of statuses
-- answers a request, if it answers it, in one of two ways. Either with an error: one of the fixed
-- texts of the gateway, with a status between 400 and 599, and no header but its own two and `Vary`.
-- Or with status 200 and a reply that a service gave to a message on the request's subject: it is not
-- larger than the route's bound and has passed the checks, and its payload is the body. The headers
-- are then exactly these: `Vary` if the route negotiates, what the allowlist takes from the reply, and
-- over these the content type, which is the representation selected for the request, and
-- `X-Content-Type-Options`.
pub serve_route-IsProper :
    (env : Upstream) (candidate : CompiledRoute) (l : Lifecycle) (r : HttpRequest) (subject : Text)
    (a : Answer)
    → validate_statuses (elements candidate.config.response.service_error_statuses) ≡ ok tt
    → serve_route env candidate l r subject ≡ answered a
    → IsError (vary candidate.config) a
      ⊎ IsReply env candidate.config subject
          (vary candidate.config)
          (IsSelected env r candidate.config)
          a
serve_route-IsProper env candidate l r subject a accepted e =
    subst
      (IsProper env candidate.config subject (vary candidate.config)
        (IsSelected env r candidate.config))
      e (IsProper-serve_route env candidate l r subject accepted)
