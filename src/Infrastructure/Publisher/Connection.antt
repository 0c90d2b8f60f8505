-- ===== src/Infrastructure/Publisher/Connection.antt =====
-- The connection of a publisher, over any run of `publish`.
use ai_risk_engine.Exec.{Result, ok, err, pure, lift, proceed, ◌>>=◌}
use ai_risk_engine.Infrastructure.Publisher.{Broker, RabbitMqPublisher, on_broker, ready, publish}
use ai_risk_engine.Json.{Fields}
use ai_risk_engine.Prelude.{◌≡◌, refl, true, String, Option, some}

abbrev connected : {C H : Type 0} → Option C → H → RabbitMqPublisher C H
connected c channel = record { connection = c; channel = some channel }

module _ {W C H X : Type 0} (broker : Broker W C H X) (url : String)
    (dump : Fields → Result String) where
  -- Whatever the broker answers, a publisher that has a channel keeps it and its connection.
  pub publish-keeps :
      (e r k : String) (m : Fields) (c : Option C) (channel : H) (w : W)
      → (publish broker url dump e r m k (connected c channel, w)).1.0 ≡ connected c channel
  unfolding publish ready pure lift ◌>>=◌
  publish-keeps e r k m c channel w = by_exchange (broker.declare_exchange channel e true w)
    where
      by_exchange :
          (answer : Result X × W)
          → (proceed {S = RabbitMqPublisher C H × W}
              (λ x. lift (dump m) >>= λ body.
                on_broker (broker.publish_on x (record { body = body; idempotency_key = k }) r))
              (answer.0, (connected c channel, answer.1))).1.0
            ≡ connected c channel
      by_exchange (err _, w₁) = refl
      by_exchange (ok x, w₁) = by_body (dump m)
        where
          by_body :
              (text : Result String)
              → (proceed {S = RabbitMqPublisher C H × W}
                  (λ body.
                    on_broker (broker.publish_on x (record { body = body; idempotency_key = k }) r))
                  (text, (connected c channel, w₁))).1.0
                ≡ connected c channel
          by_body (err _) = refl
          by_body (ok body) = refl
