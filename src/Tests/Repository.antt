-- ===== src/Tests/Repository.antt =====
-- The witness for the theorem on the Redis repository, over a cache that is a dictionary.
use ai_risk_engine.Application.EventService as Service
use ai_risk_engine.Application.EventService.{
  PersistedEvent, EventServices, create_new, persisted_to_response, idempotency_key_of,
}
use ai_risk_engine.Application.RedisRepository.{persisted_of, save, redis_repository}
use ai_risk_engine.Application.RedisRepository.RoundTrip.{IsRedisService, create_new-get_event}
use ai_risk_engine.Domain.Event.{Event, created, risk}
use ai_risk_engine.Domain.Requests.{EventResponse}
use ai_risk_engine.Errors.{runtime_error}
use ai_risk_engine.Exec.{Result, ok, err, pure, catch, raise, ◌>>=◌}
use ai_risk_engine.Json.{str, field, end}
use ai_risk_engine.Prelude.{◌≡◌, refl, false, String, none, some, [], Table, is_empty}
use ai_risk_engine.Tests.Stores.{dictionary, stored_text, dictionary-IsTextMap}

abbrev pub new_event : Event
new_event = record {
  fields = record {
    event_id = "e1";
    tenant_id = "t1";
    status = created;
    created_at = "2026-01-01";
    metadata = some (field "version" (str "2.0") end);
  };
  kind = risk none none;
}

abbrev pub print : PersistedEvent → String
print p = p.event_id

abbrev pub parse : String → Result PersistedEvent
parse t = ok (persisted_of new_event "c1")

-- The workflow cannot be started.
abbrev services : EventServices (Table String)
services = record {
  repository = redis_repository dictionary print parse;
  publish = λ x k m i w. (ok tt, w);
  redis = dictionary;
  start = λ e t w. (err (record { cls = runtime_error; message = "no workflow" }), w);
  dump = λ r. r.event_id;
  load = λ t. ok (persisted_to_response (persisted_of new_event "c1"));
}

services-IsRedisService : IsRedisService services stored_text print parse
services-IsRedisService = record {
  over = refl;
  text_map = dictionary-IsTextMap;
  publish_keeps = λ x k m i w asked. refl;
  start_keeps = λ e t w asked. refl;
}

abbrev creation : Result EventResponse × Table String
creation = create_new services new_event (idempotency_key_of "t1" "k1") "k1" "c1" []

abbrev response_or_any : Result EventResponse → EventResponse
response_or_any (ok r) = r
response_or_any (err e) = persisted_to_response (persisted_of new_event "c1")

created_ok :
    create_new services new_event (idempotency_key_of "t1" "k1") "k1" "c1" []
    ≡ (ok (response_or_any creation.0), creation.1)
unfolding create_new save pure catch raise ◌>>=◌
created_ok = refl

event_is_text : is_empty (print (persisted_of new_event "c1")) ≡ false
unfolding persisted_of
event_is_text = refl

create_new-get_event_example :
    Service.get_event services "t1" "e1" creation.1
    ≡ (ok (some (response_or_any creation.0)), creation.1)
create_new-get_event_example =
    create_new-get_event services-IsRedisService new_event "c1" "t1" "k1" "k1"
      (response_or_any creation.0) [] creation.1 event_is_text refl created_ok
