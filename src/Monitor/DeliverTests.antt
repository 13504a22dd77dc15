-- ===== src/Monitor/DeliverTests.antt =====
-- Two messages and the calls by which they are sent.
use factory_thing.Base.{false, []}
use factory_thing.Int.{pos, minus_one}
use factory_thing.Net.Defs.{Env, unresolved}
use factory_thing.Mqtt.Defs.{Paho}
use factory_thing.Monitor.Publish.{World}

abbrev env : Env
env = record {
  resolve = λ h. unresolved minus_one;
  result = λ h. pos 5;
  packet = λ h. (pos 2, []);
  be_stop = λ h. false;
}

-- Every packet is the payload.
abbrev paho : Paho
paho = record {
  serialize_connect = λ size d. (pos 0, []);
  serialize_publish = λ size p. (pos 5, p.payload);
  serialize_disconnect = λ size. (pos 0, []);
  deserialize_connack = λ buf. (pos 1, 0);
}

abbrev world : World
world = record { history = []; mqtt_sock = pos 3; tcp_sock = pos 4; tcpsock = pos 4 }
