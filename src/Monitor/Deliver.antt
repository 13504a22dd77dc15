-- ===== src/Monitor/Deliver.antt =====
-- What the publishers do with the messages of a round or a callback.
use factory_thing.Base.{List, [], ◌∷◌}
use factory_thing.CString.Defs.{strlen}
use factory_thing.Int.{ℤ, pos}
use factory_thing.Config.Defs.{Configuration}
use factory_thing.Net.Defs.{Call, write, send, History, Env}
use factory_thing.Mqtt.Defs.{Paho, publication}
use factory_thing.Monitor.Publish.{Message, over_mqtt, over_tcp}

module _ (env : Env) (paho : Paho) (c : Configuration) where
  -- The call that sends a message over these sockets.
  abbrev pub call_of : ℤ → ℤ → Message → Call
  call_of mqtt_sock tcp_sock (over_mqtt topic text) =
      let packet = paho.serialize_publish 200 (publication env paho c topic text) in
      write mqtt_sock packet.1 packet.0
  call_of mqtt_sock tcp_sock (over_tcp text) = send tcp_sock text (pos (strlen text))

  -- One call for each message, in order.
  abbrev pub called : ℤ → ℤ → List Message → History → History
  called mqtt_sock tcp_sock [] h = h
  called mqtt_sock tcp_sock (m ∷ ms) h =
      called mqtt_sock tcp_sock ms (call_of mqtt_sock tcp_sock m ∷ h)
