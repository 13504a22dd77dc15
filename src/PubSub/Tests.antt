-- ===== src/PubSub/Tests.antt =====
-- A broker that accepts and sends one message, and the theorem at it.
use factory_thing.Base.{ℕ, ◌≡◌, refl, List, some, [], ◌∷◌, leb, length, if◌then◌else◌, ok}
use factory_thing.CString.Defs.{Bytes, lit, atoi, atoi_signed, digits_onto, skip_space}
use factory_thing.Int.{ℤ, pos}
use factory_thing.Net.Defs.{
  inet, socket, History, Env, resolved, transport_open, open_resolved, prefer_inet, connect_to,
  close_socket, transport_send_packet_buffer,
}
use factory_thing.Mqtt.Defs.{MqttState}
use factory_thing.PubSub.Defs.{
  Packets, host_of, port_of, send, greet, subscribe, show, listen, exit, converse, pub0sub1_main,
}
use factory_thing.PubSub.Phases.{written}

abbrev number : History → ℤ
number (socket f ∷ h) = pos 5
number _ = pos 0

-- CONNACK after the first request, SUBACK after the second, and PUBLISH from then on.
abbrev packet_type : ℕ → ℕ
packet_type n = if leb n 6 then 2 else if leb n 8 then 9 else 3

abbrev env : Env
env = record {
  resolve = λ h. resolved (record { family = inet; host = lit "10.0.0.1" }) [];
  result = number;
  packet = λ h. (pos (packet_type (length h)), []);
  be_stop = λ h. leb 10 (length h);
}

abbrev lib : Packets
lib = record {
  paho = record {
    serialize_connect = λ size d. (pos 7, lit "connect");
    serialize_publish = λ size p. (pos 7, lit "publish");
    serialize_disconnect = λ size. (pos 10, lit "disconnect");
    deserialize_connack = λ buf. (pos 1, 0);
  };
  serialize_subscribe = λ size d. (pos 9, lit "subscribe");
  granted_qos = λ buf. pos 0;
  payload_in = λ buf. some buf;
}

abbrev loaded : MqttState
loaded = record { history = []; sock = pos 0 }

abbrev argv : List Bytes
argv = lit "pub0sub1" ∷ lit "10.0.0.1" ∷ lit "1884" ∷ []

-- One reading is published.
session_test :
    (elim (pub0sub1_main env lib 11 argv loaded) [ ok (some (rc, s)) ↦ written s.history | _ ↦ [] ])
    ≡ lit "disconnect" ∷ lit "publish" ∷ lit "subscribe" ∷ lit "connect" ∷ []
unfolding pub0sub1_main converse exit listen show subscribe greet send host_of port_of atoi
    atoi_signed digits_onto skip_space transport_open open_resolved prefer_inet connect_to
    close_socket transport_send_packet_buffer
session_test = refl
