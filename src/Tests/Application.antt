-- ===== src/Tests/Application.antt =====
-- Witnesses for the theorems on app/application.
use ai_risk_engine.Application.EventService.{
  PersistedEvent, EventServices, create_new, create_event, persisted_to_response,
  idempotency_key_of,
}
use ai_risk_engine.Application.EventService.Replay.{
  KeepsResponses, IsPrintable, create_event-replays,
}
use ai_risk_engine.Domain.Event.{Event, created, received, risk}
use ai_risk_engine.Domain.Requests.{EventResponse}
use ai_risk_engine.Errors.{Error, runtime_error}
use ai_risk_engine.Exec.{Result, ok, err, pure, lift, catch, raise, ◌>>=◌}
use ai_risk_engine.Prelude.{
  ℕ, ◌+◌, ◌≡◌, refl, ap, subst, String, Option, none, some, [], ◌∷◌, eq_refl, Table, lookup,
}

-- The cache as a list of writes, the newest first, and the number of messages published.
pub record Infrastructure : Type 0 where
  pub cache : Table String
  pub published : ℕ

abbrev persisted : PersistedEvent
persisted = record {
  event_id = "e1";
  tenant_id = "acme:eu";
  correlation_id = "c1";
  status = received;
  created_at = "2026-01-01";
  metadata = none;
  version = "1.0";
}

abbrev pub response : EventResponse
response = record {
  event_id = "e1";
  tenant_id = "acme:eu";
  status = received;
  created_at = "2026-01-01";
  metadata = none;
  version = "1.0";
}

abbrev failure : Error
failure = record { cls = runtime_error; message = "no workflow" }

-- Every event is saved as the same one, and the start of the workflow raises.
abbrev pub services : EventServices Infrastructure
services = record {
  repository = record {
    save = λ e c w. (ok persisted, w);
    get = λ t i w. (ok (some persisted), w);
  };
  publish = λ x k m i w. (ok tt, record w { published = w.published + 1 });
  redis = record {
    get_cache = λ k w. (ok (lookup k w.cache), w);
    set_cache = λ k v t w. (ok tt, record w { cache = (k, v) ∷ w.cache });
  };
  start = λ e t w. (err failure, w);
  dump = λ r. r.event_id;
  load = λ s. ok response;
}

abbrev saved : String → String → Infrastructure → Infrastructure
saved k v w = record w { cache = (k, v) ∷ w.cache }

saved_is_read :
    (k v : String) (w : Infrastructure)
    → services.redis.get_cache k (saved k v w) ≡ (ok (some v), saved k v w)
unfolding lookup
saved_is_read k v w = rw (eq_refl k) refl

pub services-KeepsResponses : KeepsResponses services
services-KeepsResponses = record {
  get_cache-set = λ k v t w w' h.
      subst (λ (x : Infrastructure). services.redis.get_cache k x ≡ (ok (some v), x))
        (ap (λ (r : Result (Unit {0}) × Infrastructure). r.1) h) (saved_is_read k v w);
  get_cache_again = λ k o w w' h.
      subst (λ (x : Infrastructure). services.redis.get_cache k x ≡ (ok o, x))
        (ap (λ (r : Result (Option String) × Infrastructure). r.1) h)
        (ap (λ (r : Result (Option String) × Infrastructure). (r.0, w)) h);
}

pub response-IsPrintable : IsPrintable services response
response-IsPrintable = record { load-dump = refl; dump_is_text = refl }

abbrev event : Event
event = record {
  fields = record {
    event_id = "e1";
    tenant_id = "acme:eu";
    status = created;
    created_at = "2026-01-01";
    metadata = none;
  };
  kind = risk none none;
}

abbrev pub empty : Infrastructure
empty = record { cache = []; published = 0 }

abbrev pub after : Infrastructure
after = record { cache = (idempotency_key_of "acme:eu" "k1", "e1") ∷ []; published = 1 }

first_call : create_event services event "acme:eu" "k1" "c1" empty ≡ (ok response, after)
unfolding create_event create_new persisted_to_response lookup pure lift catch raise ◌>>=◌
first_call = refl

create_event-replays_example :
    create_event services event "acme:eu" "k1" "c2" after ≡ (ok response, after)
create_event-replays_example =
    create_event-replays services services-KeepsResponses event event "acme:eu" "k1" "c1" "c2"
      response empty after response-IsPrintable first_call
