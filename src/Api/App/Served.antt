-- ===== src/Api/App/Served.antt =====
-- What the middleware makes of a request, whatever the services do.
use ai_risk_engine.Api.App.{
  Endpoint, get_health, get_tenant_context, post_event, get_event_by_id, post_risk, post_compliance,
  Drawn, Settings, response_of, is_registered, internal_error, handle_error,
  unexpected_error_handler, health, tenant_context, post, route, handled, serve,
}
use ai_risk_engine.Api.Dependencies.{get_tenant_id, get_correlation_id, attribute_or_raise}
use ai_risk_engine.Api.Events.{Reply}
use ai_risk_engine.Api.Middleware.{
  Request, Scope, detail, Response, json_response, correlation_id_of, is_missing,
  set_correlation_id, set_tenant_id, audit_event, with_correlation_id, with_tenant_id, with_audit,
}
use ai_risk_engine.Application.EventService.{EventServices}
use ai_risk_engine.Errors.{Error}
use ai_risk_engine.Exec.{Result, ok, err, pure, throw, proceed, recover, catch, ◌>>=◌}
use ai_risk_engine.Json.{Fields}
use ai_risk_engine.Prelude.{
  strip, ◌≡◌, refl, ◌⊎◌, inl, inr, Bool, true, false, Bool-cases, String, Option, none, some, ◌∷◌,
  is_blank, ap, ◌∙◌,
}
use ai_risk_engine.Observability.Failures.{http_status}
use ai_risk_engine.Prelude.Int.{ℤ}

-- The headers `X-Tenant-ID` and `X-Correlation-ID` answered.
abbrev pub stamped : String → Response → Response
stamped correlation_id response = record response { correlation_header = some correlation_id }

-- The state in which a handler runs.
abbrev pub prepared : {W : Type 0} → String → String → Scope W → Scope W
prepared tenant_id correlation_id s = set_tenant_id tenant_id (set_correlation_id correlation_id s)

abbrev pub with_world : {W : Type 0} → W → Scope W → Scope W
with_world w s = record s { world = w }

module _ {W : Type 0} (services : EventServices W) (serializable : Fields → Bool)
    (float_str : ℤ → String) (settings : Settings) (drawn : Drawn) where
  -- A request without a tenant, to any endpoint, is answered with 400 under its correlation id, and
  -- neither a handler nor a service runs, nor is it audited.
  pub serve-refuses :
      (request : Request) (endpoint : Endpoint) (s : Scope W)
      → is_missing request.tenant_header ≡ true
      → serve services serializable float_str settings drawn request endpoint s ≡ (
        ok (
            stamped
              (correlation_id_of request.correlation_header drawn.correlation_id)
              (json_response 400 (detail "X-Tenant-ID header is required"))),
        set_correlation_id (correlation_id_of request.correlation_header drawn.correlation_id) s,
      )
  unfolding serve with_correlation_id with_tenant_id catch pure ◌>>=◌
  serve-refuses request endpoint s missing = by_header request.tenant_header missing
    where
      by_header :
          (header : Option String)
          → is_missing header ≡ true
          → recover unexpected_error_handler (
              with_correlation_id drawn.correlation_id request
                (with_tenant_id header (
                  with_audit request
                    (handled services serializable float_str settings drawn endpoint)))
                s)
            ≡ (
              ok (
                  stamped
                    (correlation_id_of request.correlation_header drawn.correlation_id)
                    (json_response 400 (detail "X-Tenant-ID header is required"))),
              set_correlation_id
                  (correlation_id_of request.correlation_header drawn.correlation_id)
                  s,
            )
      by_header none m = refl
      by_header (some h) m = rw m refl

  module _ (tenant_id correlation_id : String) (s : Scope W) where
    abbrev pub in_handler : Scope W
    in_handler = prepared tenant_id correlation_id s

    -- A handler changes the world alone.
    abbrev pub ChangesWorld : Result Response × Scope W → Type 0
    ChangesWorld r = (x : Result Response) × (w : W) × (r ≡ (x, with_world w in_handler))

    replied_lem :
        (y : Result Reply × W)
        → ChangesWorld
            (proceed (λ reply. pure (response_of reply)) (y.0, with_world y.1 in_handler))
    unfolding pure
    replied_lem (ok reply, w) = (ok (response_of reply), w, refl)
    replied_lem (err e, w) = (err e, w, refl)

    route_lem :
        (endpoint : Endpoint)
        → ChangesWorld (route services serializable float_str settings drawn endpoint in_handler)
    unfolding route post health tenant_context get_tenant_id get_correlation_id attribute_or_raise
        pure ◌>>=◌
    route_lem get_health = (_, s.world, refl)
    route_lem get_tenant_context = (_, s.world, refl)
    route_lem (post_event key body) = replied_lem _
    route_lem (get_event_by_id event_id) = replied_lem _
    route_lem (post_risk key body) = replied_lem _
    route_lem (post_compliance key body) = replied_lem _

    -- The handlers of the named classes leave only an exception of another class.
    abbrev pub IsUnexpected : Result Response × Scope W → Error → Type 0
    IsUnexpected routed e = (is_registered e.cls ≡ false) × (routed.0 ≡ err e)

    recovered :
        (routed : Result Response × Scope W)
        → ChangesWorld routed
        → (w : W) × (((r : Response) × (recover handle_error routed
                ≡ (ok r, with_world w in_handler)))
            ⊎ ((e : Error) × (recover handle_error routed ≡ (err e, with_world w in_handler))
                × IsUnexpected routed e))
    unfolding handle_error pure throw
    recovered routed (ok r, w, is) = (w, inl (r, ap (recover handle_error) is))
    recovered routed (err e, w, is) = elim (Bool-cases (is_registered e.cls)) [
      | inl known ↦ (
        w,
        inl (
          json_response (http_status e.cls) (detail e.message),
          ap (recover handle_error) is ∙ rw known refl,
        ),
      )
      | inr unknown ↦ (
        w,
        inr (
          e,
          ap (recover handle_error) is ∙ rw unknown refl,
          (unknown, ap (λ (r : Result Response × Scope W). r.0) is),
        ),
      )
    ]

    -- What the layers around a handler make of its outcome.
    abbrev pub around : Request → Result Response × Scope W → Result Response × Scope W
    around request outcome = recover unexpected_error_handler (
        proceed (λ response. pure (stamped correlation_id response))
          (proceed
            (λ response x.
              (ok response, record x { logged = audit_event request x.state response ∷ x.logged }))
            outcome))

    -- The two ways in which a request with a tenant ends.
    pub record IsAnswered (request : Request) (routed : Result Response × Scope W)
        (final : Result Response × Scope W) : Type 0 where
      pub response : Response
      pub returns : final.0 ≡ ok response
      pub state : final.1.state ≡ in_handler.state
      pub how :
          ((response.correlation_header ≡ some correlation_id)
            × (final.1.logged ≡ audit_event request in_handler.state response ∷ s.logged))
          ⊎ ((response ≡ internal_error)
              × (final.1.logged ≡ s.logged)
              × ((e : Error) × IsUnexpected routed e))

    around-IsAnswered :
        (request : Request) (routed : Result Response × Scope W)
        → ChangesWorld routed
        → IsAnswered request routed (around request (recover handle_error routed))
    unfolding unexpected_error_handler pure
    around-IsAnswered request routed changes =
        let (w, how) = recovered routed changes in
        elim how [
          | inl (r, is) ↦ rw is (record {
            response = stamped correlation_id r;
            returns = refl;
            state = refl;
            how = inl (refl, refl);
          })
          | inr (e, is, unexpected) ↦ rw is (record {
            response = internal_error;
            returns = refl;
            state = refl;
            how = inr (refl, refl, (e, unexpected));
          })
        ]

  -- The stack of layers around a handler, at a request that names a tenant.
  pub serve_lem :
      (request : Request) (header : String) (endpoint : Endpoint) (s : Scope W)
      → request.tenant_header ≡ some header
      → is_blank header ≡ false
      → (let correlation_id = correlation_id_of request.correlation_header drawn.correlation_id in
          serve services serializable float_str settings drawn request endpoint s
          ≡ around (strip header) correlation_id s request (
              recover handle_error (
                route services serializable float_str settings drawn endpoint
                  (prepared (strip header) correlation_id s))))
  unfolding serve handled catch with_correlation_id with_tenant_id with_audit pure ◌>>=◌
  serve_lem request header endpoint s given named =
      ap
        (λ (h : Option String). recover unexpected_error_handler (
          with_correlation_id drawn.correlation_id request
            (with_tenant_id h (
              with_audit request (handled services serializable float_str settings drawn endpoint)))
            s))
        given
      ∙ rw named refl

  -- A request that names a tenant is always answered, whatever the services do or raise, and its
  -- handler runs for the stripped tenant. Either the response carries the correlation id, the one of
  -- the request or a new one, and exactly one audit line was logged, with that id, the tenant, method,
  -- path and the status of the response; or the handler raised an exception of a class that no handler
  -- is registered for, the answer is 500 without a correlation id, and nothing was audited.
  pub serve-IsAnswered :
      (request : Request) (header : String) (endpoint : Endpoint) (s : Scope W)
      → request.tenant_header ≡ some header
      → is_blank header ≡ false
      → (let correlation_id = correlation_id_of request.correlation_header drawn.correlation_id in
          IsAnswered
            (strip header)
            correlation_id
            s
            request
            (route services serializable float_str settings drawn endpoint
              (prepared (strip header) correlation_id s))
            (serve services serializable float_str settings drawn request endpoint s))
  serve-IsAnswered request header endpoint s given named =
      let correlation_id = correlation_id_of request.correlation_header drawn.correlation_id in
      rw (serve_lem request header endpoint s given named) (
        around-IsAnswered (strip header) correlation_id s request _
          (route_lem (strip header) correlation_id s endpoint))
