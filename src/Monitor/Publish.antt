-- ===== src/Monitor/Publish.antt =====
-- Messages, and the choice of format and transport.
use factory_thing.Base.{List, [], ◌∷◌, if◌then◌else◌, Run, ok, ◌>>=◌, need}
use factory_thing.CString.Defs.{Bytes}
use factory_thing.Int.{ℤ}
use factory_thing.Config.Defs.{Configuration, Group}
use factory_thing.Net.Defs.{History, Env}
use factory_thing.Tcp.Defs.{tcp_publish}
use factory_thing.Mqtt.Defs.{Paho, mqtt_publish}

-- mqtt_publish(_, topic, value) and tcp_publish(_, topic, value)
pub data Message : Type 0 where
  over_mqtt : Bytes → Bytes → Message
  over_tcp : Bytes → Message

-- if(p->mqtt) mqtt_publish(…); if(p->tcp) tcp_publish(…); each with its own text.
unfoldable pub publish : Group → Bytes → Bytes → Bytes → Run (List Message)
publish g topic mqtt_text tcp_text = do
  m ← need g.mqtt
  t ← need g.tcp
  let rest = if t then over_tcp tcp_text ∷ [] else []
  ok (if m then over_mqtt topic mqtt_text ∷ rest else rest)

-- The static variables of the two publishers, and the calls made.
pub record World : Type 0 where
  pub history : History
  pub mqtt_sock : ℤ
  pub tcp_sock : ℤ
  pub tcpsock : ℤ

module _ (env : Env) (paho : Paho) (c : Configuration) where
  unfoldable pub deliver_one : Message → World → World
  deliver_one (over_mqtt topic text) w =
      let s =
        (mqtt_publish env paho c topic text
          (record { history = w.history; sock = w.mqtt_sock })).1 in
      record w { history = s.history }
  deliver_one (over_tcp text) w =
      let s =
        (tcp_publish env c text
          (record { history = w.history; tcpsock = w.tcpsock; sock = w.tcp_sock })).1 in
      record w { history = s.history; tcpsock = s.tcpsock; tcp_sock = s.sock }

  -- The messages are sent in order; what the publishers return is not looked at.
  unfoldable pub deliver : List Message → World → World
  deliver [] w = w
  deliver (m ∷ ms) w = deliver ms (deliver_one m w)
