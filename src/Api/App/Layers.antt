-- ===== src/Api/App/Layers.antt =====
-- The layers of main.py around a handler: the world that they leave and the response that they give.
use ai_risk_engine.Api.App.{
  Endpoint, Drawn, Settings, response_of, internal_error, handle_error, unexpected_error_handler,
  route, serve, is_registered,
}
use ai_risk_engine.Api.App.Served.{prepared, stamped, around, serve_lem}
use ai_risk_engine.Api.Events.{Reply}
use ai_risk_engine.Api.Middleware.{
  Request, Scope, Response, json_response, detail, correlation_id_of,
}
use ai_risk_engine.Application.EventService.{EventServices}
use ai_risk_engine.Exec.{Result, ok, err, pure, throw, proceed, recover}
use ai_risk_engine.Json.{Fields}
use ai_risk_engine.Observability.Failures.{http_status}
use ai_risk_engine.Prelude.{
  strip, arith, ◌≡◌, refl, ap, ◌∙◌, Bool, false, String, some, if◌then◌else◌, is_blank,
}
use ai_risk_engine.Prelude.Int.{ℤ}

-- The response is a function of what the handler returned or raised.
abbrev pub final_response : String → Result Response → Result Response
final_response correlation_id (ok r) = ok (stamped correlation_id r)
final_response correlation_id (err e) = ok internal_error

abbrev pub recovered_result : Result Response → Result Response
recovered_result (ok r) = ok r
recovered_result (err e) =
    if is_registered e.cls then ok (json_response (http_status e.cls) (detail e.message)) else err e

-- The layers around a handler leave the world as the handler left it.
module _ {W : Type 0} where
  pub recovered_world :
      (x : Result Response × Scope W) → (recover handle_error x).1.world ≡ x.1.world
  unfolding handle_error pure throw
  recovered_world (ok r, s) = refl
  recovered_world (err e, s) = ground arith

  pub replied_world :
      (x : Result Reply × Scope W)
      → (proceed (λ reply. pure (response_of reply)) x).1.world ≡ x.1.world
  unfolding pure
  replied_world (ok reply, s) = refl
  replied_world (err e, s) = refl

  pub recovered_result_lem :
      (x : Result Response × Scope W) → (recover handle_error x).0 ≡ recovered_result x.0
  unfolding handle_error pure throw
  recovered_result_lem (ok r, s) = refl
  recovered_result_lem (err e, s) = ground arith

module _ {W : Type 0} (services : EventServices W) (serializable : Fields → Bool)
    (float_str : ℤ → String) (settings : Settings) (drawn : Drawn)
    (tenant_id correlation_id : String) (s : Scope W) (request : Request) where
  around_world :
      (x : Result Response × Scope W)
      → (around services serializable float_str settings drawn tenant_id correlation_id s request
          x).1.world
        ≡ x.1.world
  unfolding unexpected_error_handler pure
  around_world (ok r, t) = refl
  around_world (err e, t) = refl

  around_result :
      (x : Result Response × Scope W)
      → (around services serializable float_str settings drawn tenant_id correlation_id s request
          x).0
        ≡ final_response correlation_id x.0
  unfolding unexpected_error_handler pure
  around_result (ok r, t) = refl
  around_result (err e, t) = refl

module _ {W : Type 0} (services : EventServices W) (serializable : Fields → Bool)
    (float_str : ℤ → String) (settings : Settings) (drawn : Drawn) (request : Request)
    (header : String) (endpoint : Endpoint) (s : Scope W)
    (given : request.tenant_header ≡ some header) (named : is_blank header ≡ false) where
  abbrev pub request_id : String
  request_id = correlation_id_of request.correlation_header drawn.correlation_id

  abbrev pub routed : Result Response × Scope W
  routed =
      route services serializable float_str settings drawn endpoint
        (prepared (strip header) request_id s)

  pub serve_world :
      (serve services serializable float_str settings drawn request endpoint s).1.world
      ≡ routed.1.world
  serve_world =
      ap (λ (x : Result Response × Scope W). x.1.world)
        (serve_lem services serializable float_str settings drawn request header endpoint s given
          named)
      ∙ around_world services serializable float_str settings drawn (strip header) request_id s
          request _
      ∙ recovered_world routed

  pub serve_result :
      (serve services serializable float_str settings drawn request endpoint s).0
      ≡ final_response request_id (recovered_result routed.0)
  serve_result =
      ap (λ (x : Result Response × Scope W). x.0)
        (serve_lem services serializable float_str settings drawn request header endpoint s given
          named)
      ∙ around_result services serializable float_str settings drawn (strip header) request_id s
          request _
      ∙ ap (final_response request_id) (recovered_result_lem routed)
