-- ===== src/Tests/App.antt =====
-- The witnesses for the theorems on the application, over a Redis that is a dictionary and a broker
-- that takes every message.
use Prim.Native.String.{◌++◌}
use ai_risk_engine.Api.App.{get_health, post_event, get_event_by_id, Drawn, Settings, route, serve}
use ai_risk_engine.Api.App.Isolation.{app, tenants_isolated, reads_across_tenants}
use ai_risk_engine.Api.App.Served.{IsAnswered, stamped, prepared, serve-refuses, serve-IsAnswered}
use ai_risk_engine.Api.Dependencies.{Printing, get_event_service}
use ai_risk_engine.Api.Middleware.{Request, Scope, json_response, detail, set_correlation_id}
use ai_risk_engine.Application.RedisRepository.Tenants.{has_colon}
use ai_risk_engine.Errors.{value_error}
use ai_risk_engine.Exec.{ok, err}
use ai_risk_engine.Infrastructure.Publisher.{Broker, RabbitMqPublisher}
use ai_risk_engine.Infrastructure.Publisher as Publisher
use ai_risk_engine.Infrastructure.Publisher.Elsewhere.{IsElsewhere}
use ai_risk_engine.Infrastructure.RedisClient.{Redis}
use ai_risk_engine.Infrastructure.RedisClient.Texts.{IsTextStore}
use ai_risk_engine.Prelude.{
  lstrip, rstrip, strip, arith, ◌≡◌, ◌≢◌, refl, Bool, true, false, ◌&&◌, String, Option, none, some,
  [], Table, lookup, insert, remove, lookup-insert, if◌then◌else◌, eq_iff, ◌==◌,
}
use ai_risk_engine.Tests.Api.{any_fields, no_digits, body}
use ai_risk_engine.Tests.Repository.{print, parse}
use ai_risk_engine.Tests.Application.{response}

abbrev is_some : Option String → Bool
is_some none = false
is_some (some text) = true

abbrev set_unless : Bool → String → String → Table String → Option Bool × Table String
set_unless true k v w = (none, w)
set_unless false k v w = (some true, insert k v w)

-- A Redis without times to live and numbers.
abbrev memory : Redis (Table String)
memory = record {
  set = λ k v ttl nx w.
      let (answer, w') = set_unless (nx && is_some (lookup k w)) k v w in (ok answer, w');
  get = λ k w. (ok (lookup k w), w);
  exists = λ k w. (ok (if is_some (lookup k w) then 1 else 0), w);
  delete = λ k w. (ok (if is_some (lookup k w) then 1 else 0), remove k w);
  incr = λ k w. (err (record { cls = value_error; message = "not an integer" }), w);
  expire = λ k seconds w. (ok (is_some (lookup k w)), w);
  eval = λ script n k v w. (err (record { cls = value_error; message = "no scripts" }), w);
}

abbrev seen : Table String → String → Option String
seen w k = lookup k w

memory-IsTextStore : IsTextStore memory seen
memory-IsTextStore = record {
  get_reads = λ k w. refl;
  set_answers = λ k v t w. refl;
  set_stores = λ k v t w asked. lookup-insert w asked k v;
}

abbrev accepting : Broker (Table String) (Unit {0}) (Unit {0}) (Unit {0})
accepting = record {
  connect_robust = λ url w. (ok tt, w);
  open_channel = λ c w. (ok tt, w);
  set_qos = λ h n w. (ok tt, w);
  declare_exchange = λ h e durable w. (ok tt, w);
  publish_on = λ x m r w. (ok tt, w);
}

accepting-IsElsewhere : (key : String) → IsElsewhere accepting (λ w. seen w key)
accepting-IsElsewhere key = record {
  connect_keeps = λ url. record { at = λ w. refl };
  channel_keeps = λ c. record { at = λ w. refl };
  qos_keeps = λ h n. record { at = λ w. refl };
  exchange_keeps = λ h e b. record { at = λ w. refl };
  publish_keeps = λ x m r. record { at = λ w. refl };
}

abbrev printing : Printing
printing = record {
  dump_message = λ fields. ok "{}";
  dump_event = print;
  load_event = parse;
  dump_response = λ r. r.event_id;
  load_response = λ text. ok response;
}

abbrev settings : Settings
settings = record { environment = "test"; version = "0.1.0" }

abbrev drawn : Drawn
drawn = record { correlation_id = "c1"; event_id = "e1"; now = "2026" }

abbrev request_of : Option String → Request
request_of header = record {
  method = "GET";
  path = "/";
  tenant_header = header;
  correlation_header = none;
}

abbrev fresh : Scope (RabbitMqPublisher (Unit {0}) (Unit {0}) × Table String)
fresh = record {
  world = (Publisher.new, []);
  state = record { tenant_id = none; correlation_id = none };
  correlation_id_ctx = none;
  tenant_id_ctx = none;
  logged = [];
}

serve-refuses_example :
    serve
      (get_event_service memory accepting "" printing)
      any_fields
      no_digits
      settings
      drawn
      (request_of (some "  "))
      get_health
      fresh
    ≡ (
      ok (stamped "c1" (json_response 400 (detail "X-Tenant-ID header is required"))),
      set_correlation_id "c1" fresh,
    )
serve-refuses_example =
    serve-refuses (get_event_service memory accepting "" printing) any_fields no_digits settings
      drawn (request_of (some "  ")) get_health fresh refl

serve-IsAnswered_example :
    IsAnswered
      (get_event_service memory accepting "" printing)
      any_fields
      no_digits
      settings
      drawn
      (strip " acme")
      "c1"
      fresh
      (request_of (some " acme"))
      (route
        (get_event_service memory accepting "" printing)
        any_fields
        no_digits
        settings
        drawn
        (post_event (some "k1") body)
        (prepared (strip " acme") "c1" fresh))
      (serve
        (get_event_service memory accepting "" printing)
        any_fields
        no_digits
        settings
        drawn
        (request_of (some " acme"))
        (post_event (some "k1") body)
        fresh)
serve-IsAnswered_example =
    serve-IsAnswered (get_event_service memory accepting "" printing) any_fields no_digits settings
      drawn (request_of (some " acme")) " acme" (post_event (some "k1") body) fresh refl refl

acme_plain : has_colon (strip " acme") ≡ false
unfolding strip lstrip rstrip
acme_plain = refl

globex_plain : has_colon (strip "globex") ≡ false
unfolding strip lstrip rstrip
globex_plain = refl

acme_not_globex : (strip " acme" == strip "globex") ≡ false
unfolding strip lstrip rstrip
acme_not_globex = refl

acme_differs : strip " acme" ≢ strip "globex"
acme_differs same =
    ground (arith, (eq_iff (strip " acme") (strip "globex")).1 same, acme_not_globex)

tenants_isolated_example :
    (app memory accepting "" printing seen any_fields no_digits settings drawn
      (request_of (some "globex"))
      (get_event_by_id "e1")
      (app memory accepting "" printing seen any_fields no_digits settings drawn
        (request_of (some " acme"))
        (post_event (some "k1") body)
        fresh).1).0
    ≡ (app memory accepting "" printing seen any_fields no_digits settings drawn
        (request_of (some "globex"))
        (get_event_by_id "e1")
        fresh).0
tenants_isolated_example =
    tenants_isolated memory accepting "" printing seen any_fields no_digits settings
      memory-IsTextStore accepting-IsElsewhere drawn drawn (request_of (some " acme"))
      (request_of (some "globex")) " acme" "globex" "e1" (post_event (some "k1") body) fresh refl
      refl refl refl acme_plain globex_plain acme_differs

continued : strip "acme:eu" ≡ strip " acme" ++ (":" ++ "eu")
unfolding strip lstrip rstrip
continued = refl

reads_across_tenants_example :
    (app memory accepting "" printing seen any_fields no_digits settings drawn
      (request_of (some " acme"))
      (get_event_by_id "eu:e1")
      fresh).0
    ≡ (app memory accepting "" printing seen any_fields no_digits settings drawn
        (request_of (some "acme:eu"))
        (get_event_by_id "e1")
        fresh).0
reads_across_tenants_example =
    reads_across_tenants memory accepting "" printing seen any_fields no_digits settings
      memory-IsTextStore drawn drawn (request_of (some " acme")) (request_of (some "acme:eu"))
      " acme" "acme:eu" "eu" "e1" fresh refl refl refl refl continued refl
