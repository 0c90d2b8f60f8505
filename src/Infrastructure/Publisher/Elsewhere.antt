-- ===== src/Infrastructure/Publisher/Elsewhere.antt =====
-- A publisher writes to its broker and nowhere else.
use ai_risk_engine.Exec.{Exec, Result}
use ai_risk_engine.Exec.Keeps.{Keeps, Keeps-pure, Keeps-lift, Keeps-bind}
use ai_risk_engine.Infrastructure.Publisher.{
  Broker, Message, RabbitMqPublisher, on_broker, set_publisher, get_channel, connect, ready,
  publish,
}
use ai_risk_engine.Json.{Fields}
use ai_risk_engine.Prelude.{ℕ, refl, Bool, String, Option, none, some}

-- What the calls of a broker leave alone.
pub record IsElsewhere {W V C H X : Type 0} (broker : Broker W C H X) (look : W → V) : Type 0 where
  pub connect_keeps : (url : String) → Keeps look (broker.connect_robust url)
  pub channel_keeps : (c : C) → Keeps look (broker.open_channel c)
  pub qos_keeps : (h : H) (n : ℕ) → Keeps look (broker.set_qos h n)
  pub exchange_keeps : (h : H) (e : String) (b : Bool) → Keeps look (broker.declare_exchange h e b)
  pub publish_keeps : (x : X) (m : Message) (r : String) → Keeps look (broker.publish_on x m r)

-- What is seen beside a publisher.
abbrev pub beside : {W V C H : Type 0} → (W → V) → RabbitMqPublisher C H × W → V
beside look (p, w) = look w

pub Keeps-on_broker :
    {W V C H A : Type 0} {look : W → V} {m : Exec W A}
    → Keeps look m
    → Keeps (beside {C = C} {H = H} look) (on_broker m)
Keeps-on_broker h = record { at = λ x. h.at x.1 }

Keeps-set_publisher :
    {W V C H : Type 0} (look : W → V) (change : RabbitMqPublisher C H → RabbitMqPublisher C H)
    → Keeps (beside look) (set_publisher {W = W} change)
Keeps-set_publisher look change = record { at = λ x. refl }

Keeps-get_channel :
    {W V C H : Type 0} (look : W → V) → Keeps (beside look) (get_channel {W = W} {C = C} {H = H})
Keeps-get_channel look = record { at = λ x. refl }

module _ {W V C H X : Type 0} (broker : Broker W C H X) (url : String)
    (dump : Fields → Result String) {look : W → V} (h : IsElsewhere broker look) where
  Keeps-connect : Keeps (beside look) (connect broker url dump)
  unfolding connect
  Keeps-connect = Keeps-bind (Keeps-on_broker (h.connect_keeps url)) λ c.
      Keeps-bind (Keeps-set_publisher look (λ p. record p { connection = some c })) λ _.
        Keeps-bind (Keeps-on_broker (h.channel_keeps c)) λ channel.
          Keeps-bind (Keeps-set_publisher look (λ p. record p { channel = some channel }))
            λ _. Keeps-bind (Keeps-on_broker (h.qos_keeps channel 10)) λ _. Keeps-pure channel

  Keeps-ready : (o : Option H) → Keeps (beside look) (ready broker url dump o)
  unfolding ready
  Keeps-ready none = Keeps-connect
  Keeps-ready (some channel) = Keeps-pure channel

  pub Keeps-publish :
      (e r : String) (m : Fields) (k : String)
      → Keeps (beside look) (publish broker url dump e r m k)
  unfolding publish
  Keeps-publish e r m k = Keeps-bind (Keeps-get_channel look) λ kept.
      Keeps-bind (Keeps-ready kept) λ channel.
        Keeps-bind (Keeps-on_broker (h.exchange_keeps channel e _))
          λ x. Keeps-bind (Keeps-lift (dump m)) λ body. Keeps-on_broker (h.publish_keeps x _ r)
