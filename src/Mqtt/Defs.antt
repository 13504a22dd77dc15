-- ===== src/Mqtt/Defs.antt =====
-- `mqtt_connect`, `mqtt_publish` and `mqtt_main`.
use factory_thing.Base.{
  ℕ, zero, suc, Bool, true, false, Option, none, some, [], ◌∷◌, if◌then◌else◌, ◌||◌, ◌&&◌, not,
  ◌==◌,
}
use factory_thing.CString.Defs.{Bytes, lit}
use factory_thing.Int.{ℤ, pos, negsuc, minus_one, is_negative}
use factory_thing.Config.Defs.{Configuration}
use factory_thing.Net.Defs.{
  read_packet, sleep, History, Env, transport_open, transport_send_packet_buffer, close_socket,
}

-- MQTTPacket_connectData, as far as it is filled in.
pub record ConnectData : Type 0 where
  pub client_id : Bytes
  pub keep_alive_interval : ℕ
  pub cleansession : Bool
  pub username : Bytes
  pub password : Bytes

-- The arguments of MQTTSerialize_publish.
pub record Publication : Type 0 where
  pub dup : ℕ
  pub qos : ℕ
  pub retained : ℕ
  pub packet_id : ℕ
  pub topic : Bytes
  pub payload : Bytes

-- The packet library of Paho, of which the bridge only calls functions. A serializer takes the size
-- of the buffer, and gives the number that it returns and the buffer; MQTTDeserialize_connack gives
-- the number that it returns and `connack_rc`.
pub record Paho : Type 0 where
  pub serialize_connect : ℕ → ConnectData → ℤ × Bytes
  pub serialize_publish : ℕ → Publication → ℤ × Bytes
  pub serialize_disconnect : ℕ → ℤ × Bytes
  pub deserialize_connack : Bytes → ℤ × ℕ

-- The packet type CONNACK.
abbrev pub connack : ℤ
connack = pos 2

abbrev pub is_connack : ℤ → Bool
is_connack (pos n) = n == 2
is_connack (negsuc n) = false

abbrev pub is_one : ℤ → Bool
is_one (pos n) = n == 1
is_one (negsuc n) = false

-- The calls, and `sock` of client-mqtt.c.
pub record MqttState : Type 0 where
  pub history : History
  pub sock : ℤ

module _ (env : Env) (paho : Paho) (c : Configuration) where
  abbrev pub connect_data : ConnectData
  connect_data = record {
    client_id = lit "public";
    keep_alive_interval = 20;
    cleansession = true;
    username = [];
    password = [];
  }

  -- The test of the CONNACK packet.
  abbrev pub is_accepted : Bytes → Bool
  is_accepted buf =
      let (rc, connack_rc) = paho.deserialize_connack buf in is_one rc && connack_rc == 0

  abbrev pub send_connect : MqttState → MqttState
  send_connect s =
      let (len, buf) = paho.serialize_connect 128 connect_data in
      let (_, h1) = transport_send_packet_buffer env s.sock buf len s.history in
      record s { history = h1 }

  -- From MQTTPacket_read on.
  abbrev pub read_connack : MqttState → ℤ × MqttState
  read_connack s =
      let h1 = read_packet ∷ s.history in
      let (type, reply) = env.packet h1 in
      let s1 = record s { history = h1 } in
      if is_connack type && is_accepted reply then (pos 0, s1) else (minus_one, s1)

  -- From the CONNECT packet on.
  unfoldable pub handshake : MqttState → ℤ × MqttState
  handshake s = read_connack (send_connect s)

  unfoldable pub mqtt_connect : MqttState → ℤ × MqttState
  mqtt_connect s =
      let o = transport_open env c.mqtt_brocker_ip c.mqtt_brocker_port s.history in
      let s1 = record s { history = o.history; sock = o.returned } in
      if is_negative o.returned then (o.returned, s1) else handshake s1

  abbrev pub publication : Bytes → Bytes → Publication
  publication topic value = record {
    dup = 0;
    qos = 0;
    retained = 0;
    packet_id = 0;
    topic = topic;
    payload = value;
  }

  -- The mode is only printed.
  unfoldable pub mqtt_publish : Bytes → Bytes → MqttState → ℤ × MqttState
  unfolding transport_send_packet_buffer
  mqtt_publish topic value s =
      let (len, buf) = paho.serialize_publish 200 (publication topic value) in
      let (rc, h1) = transport_send_packet_buffer env s.sock buf len s.history in
      (rc, record s { history = h1 })

  -- do { rc = mqtt_connect(); } while (!beStop && rc < 0); `none` if the fuel runs out.
  unfoldable pub connect_loop : ℕ → MqttState → Option MqttState
  connect_loop zero s = none
  connect_loop (suc fuel) s =
      let (rc, s1) = mqtt_connect s in
      let again = connect_loop fuel s1 in
      if env.be_stop s1.history || not (is_negative rc) then some s1 else again

  -- while (!beStop) sleep(3);
  unfoldable pub wait_loop : ℕ → MqttState → Option MqttState
  wait_loop zero s = none
  wait_loop (suc fuel) s =
      let again = wait_loop fuel (record s { history = sleep 3 ∷ s.history }) in
      if env.be_stop s.history then some s else again

  abbrev pub send_disconnect : MqttState → MqttState
  send_disconnect s =
      let (len, buf) = paho.serialize_disconnect 256 in
      let (_, h1) = transport_send_packet_buffer env s.sock buf len s.history in
      record s { history = h1 }

  -- The DISCONNECT packet, and transport_close(sock).
  unfoldable pub disconnect : MqttState → MqttState
  disconnect s =
      let s1 = send_disconnect s in record s1 { history = (close_socket env s1.sock s1.history).1 }

  -- Both loops have the fuel; the value returned is 0.
  unfoldable pub mqtt_main : ℕ → MqttState → Option (ℤ × MqttState)
  mqtt_main fuel s = if not c.mqtt_enable then some (pos 0, s) else elim (connect_loop fuel s) [
    | none ↦ none
    | some s1 ↦ elim (wait_loop fuel s1) [ none ↦ none | some s2 ↦ some (pos 0, disconnect s2) ]
  ]
