-- ===== src/Tests/Api.antt =====
-- The witness for the theorem on `POST /events`.
use ai_risk_engine.Api.Events.{
  Body, Reply, replied, risk_body, create_event, create_with_key, validate_body,
}
use ai_risk_engine.Api.Events.Replies.{create_event-retries}
use ai_risk_engine.Application.EventService as Service
use ai_risk_engine.Application.EventService.{create_new, persisted_to_response}
use ai_risk_engine.Domain.Validators.{
  validate_risk_event_create_request, validate_tenant_id, validate_risk_score,
  validate_metadata_json_serializable, validate_version,
}
use ai_risk_engine.Exec.{Result, ok, pure, lift, catch, raise, ◌>>=◌}
use ai_risk_engine.Json.{Fields}
use ai_risk_engine.Prelude.{
  lstrip, rstrip, strip, ◌≡◌, refl, Bool, true, String, none, some, lookup,
}
use ai_risk_engine.Prelude.Int.{ℤ}
use ai_risk_engine.Tests.Application.{
  Infrastructure, services, services-KeepsResponses, response, response-IsPrintable, empty,
}

abbrev pub any_fields : Fields → Bool
any_fields d = true

abbrev pub no_digits : ℤ → String
no_digits x = "x"

abbrev pub body : Body
body = risk_body (record {
  tenant_id = "acme:eu";
  risk_score = none;
  category = none;
  metadata = none;
  version = "1.0";
})

abbrev first : Result Reply × Infrastructure
first =
    create_event services any_fields no_digits (some " k1") "e1" "2026" "acme:eu" "c1" body empty

body_valid : validate_body services any_fields no_digits body ≡ ok tt
unfolding validate_body validate_risk_event_create_request validate_tenant_id validate_risk_score
    validate_metadata_json_serializable validate_version
body_valid = refl

first_replied :
    create_event services any_fields no_digits (some " k1") "e1" "2026" "acme:eu" "c1" body empty
    ≡ (ok (replied response), first.1)
unfolding create_event create_with_key validate_body validate_risk_event_create_request
    validate_tenant_id validate_risk_score validate_metadata_json_serializable validate_version
    strip lstrip rstrip Service.create_event create_new persisted_to_response lookup pure lift catch
    raise ◌>>=◌
first_replied = refl

same_key : strip "k1 " ≡ strip " k1"
unfolding strip lstrip rstrip
same_key = refl

create_event-retries_example :
    create_event services any_fields no_digits (some "k1 ") "e2" "2027" "acme:eu" "c2" body first.1
    ≡ (ok (replied response), first.1)
create_event-retries_example =
    create_event-retries services any_fields no_digits " k1" "k1 " "e1" "e2" "2026" "2027" "acme:eu"
      "c1" "c2" body body response empty first.1 services-KeepsResponses response-IsPrintable
      first_replied refl same_key body_valid
