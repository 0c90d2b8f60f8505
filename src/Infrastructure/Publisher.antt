-- ===== src/Infrastructure/Publisher.antt =====
-- `RabbitMQPublisher` of app/infrastructure/messaging/rabbitmq_publisher.py, over the package
-- `aio_pika`. What the object keeps stands beside the world of the broker; `json.dumps` is `dump`.
pub mod Connection
pub mod Elsewhere
use ai_risk_engine.Exec.{Exec, ok, pure, lift, Result, ◌>>=◌, ◌>>◌}
use ai_risk_engine.Json.{Fields}
use ai_risk_engine.Prelude.{ℕ, Bool, true, String, Option, none, some}

-- `aio_pika.Message`, persistent, with its one header.
pub record Message : Type 0 where
  pub body : String
  pub idempotency_key : String

-- The calls of the package, on connections `C`, channels `H` and topic exchanges `X`.
pub record Broker (W C H X : Type 0) : Type 0 where
  pub connect_robust : String → Exec W C
  pub open_channel : C → Exec W H
  pub set_qos : H → ℕ → Exec W (Unit {0})
  pub declare_exchange : H → String → Bool → Exec W X
  pub publish_on : X → Message → String → Exec W (Unit {0})

pub record RabbitMqPublisher (C H : Type 0) : Type 0 where
  pub connection : Option C
  pub channel : Option H

abbrev pub new : {C H : Type 0} → RabbitMqPublisher C H
new = record { connection = none; channel = none }

abbrev pub on_broker : {W C H A : Type 0} → Exec W A → Exec (RabbitMqPublisher C H × W) A
on_broker call (p, w) = let (r, w') = call w in (r, (p, w'))

abbrev pub set_publisher :
    {W C H : Type 0}
    → (RabbitMqPublisher C H → RabbitMqPublisher C H)
    → Exec (RabbitMqPublisher C H × W) (Unit {0})
set_publisher change (p, w) = (ok tt, (change p, w))

abbrev pub get_channel : {W C H : Type 0} → Exec (RabbitMqPublisher C H × W) (Option H)
get_channel (p, w) = (ok p.channel, (p, w))

module _ {W C H X : Type 0} (broker : Broker W C H X) (url : String)
    (dump : Fields → Result String) where
  -- The channel is kept before its limit of messages is set. The answer is the channel.
  unfoldable pub connect : Exec (RabbitMqPublisher C H × W) H
  unfolding pure ◌>>=◌
  connect = do
    connection ← on_broker (broker.connect_robust url)
    set_publisher (λ p. record p { connection = some connection })
    channel ← on_broker (broker.open_channel connection)
    set_publisher (λ p. record p { channel = some channel })
    on_broker (broker.set_qos channel 10)
    pure channel

  -- `if not self._channel: await self.connect()`
  unfoldable pub ready : Option H → Exec (RabbitMqPublisher C H × W) H
  unfolding pure
  ready none = connect
  ready (some channel) = pure channel

  unfoldable pub publish :
      String → String → Fields → String → Exec (RabbitMqPublisher C H × W) (Unit {0})
  unfolding pure lift ◌>>=◌
  publish exchange_name routing_key message idempotency_key = do
    kept ← get_channel
    channel ← ready kept
    exchange ← on_broker (broker.declare_exchange channel exchange_name true)
    body ← lift (dump message)
    on_broker (
        broker.publish_on exchange (record { body = body; idempotency_key = idempotency_key })
          routing_key)
