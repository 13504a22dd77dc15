-- ===== src/PubSub/Defs.antt =====
-- `pub0sub1_main`, over the packet functions of Paho. Its flag `toStop` is the `be_stop` of the
-- environment, and its state the calls and `sock`.
use factory_thing.Base.{
  ℕ, zero, suc, ◌-◌, Bool, true, false, ◌&&◌, Option, none, some, List, ◌∷◌, ◌==◌, ltb,
  if◌then◌else◌, Run, ok, need, ◌>>=◌, Fueled,
}
use factory_thing.CString.Defs.{Bytes, lit, atoi}
use factory_thing.Int.{ℤ, pos, negsuc, is_negative, is_zero}
use factory_thing.Net.Defs.{
  read_packet, Env, transport_open, transport_send_packet_buffer, close_socket,
}
use factory_thing.Mqtt.Defs.{ConnectData, Publication, Paho, is_connack, is_one, MqttState}

-- The arguments of MQTTSerialize_subscribe, for one topic.
pub record Subscription : Type 0 where
  pub dup : ℕ
  pub packet_id : ℕ
  pub topic : Bytes
  pub qos : ℕ

-- Two more functions of Paho: what `granted_qos` holds after MQTTDeserialize_suback, whose result is
-- not looked at; and the payload that MQTTDeserialize_publish finds, which is unset if it fails.
pub record Packets : Type 0 where
  pub paho : Paho
  pub serialize_subscribe : ℕ → Subscription → ℤ × Bytes
  pub granted_qos : Bytes → ℤ
  pub payload_in : Bytes → Option Bytes

-- The packet types SUBACK and PUBLISH.
abbrev pub is_type : ℕ → ℤ → Bool
is_type n (pos m) = m == n
is_type n (negsuc m) = false

abbrev pub suback : ℕ
suback = 9

abbrev pub publish_type : ℕ
publish_type = 3

-- The size of `buf`.
abbrev pub buflen : ℕ
buflen = 200

-- An int, of the 2^32 values of its bits.
abbrev pub to_int : ℕ → ℤ
to_int n = if ltb n 0x8000_0000 then pos n else negsuc (0xffff_ffff - n)

unfoldable pub host_of : List Bytes → Bytes
host_of (exe ∷ host ∷ rest) = host
host_of _ = lit "localhost"

unfoldable pub port_of : List Bytes → ℤ
port_of (exe ∷ host ∷ port ∷ rest) = to_int (atoi 0x1_0000_0000 port)
port_of _ = pos 1883

abbrev pub connect_data : ConnectData
connect_data = record {
  client_id = lit "flx";
  keep_alive_interval = 20;
  cleansession = true;
  username = lit "flx";
  password = lit "flx";
}

abbrev pub subscription : Subscription
subscription = record { dup = 0; packet_id = 1; topic = lit "opcua/actuator"; qos = 0 }

abbrev pub reading : Publication
reading = record {
  dup = 0;
  qos = 0;
  retained = 0;
  packet_id = 0;
  topic = lit "opcua/sensor";
  payload = lit "temporature/1/36.5";
}

module _ (env : Env) (lib : Packets) where
  -- transport_sendPacketBuffer(sock, buf, len), whose result is not looked at.
  unfoldable pub send : ℤ × Bytes → MqttState → MqttState
  unfolding transport_send_packet_buffer
  send (len, buf) s = record s {
    history = (transport_send_packet_buffer env s.sock buf len s.history).1;
  }

  -- The connack is there and accepts.
  abbrev pub is_welcome : ℤ × Bytes → Bool
  is_welcome (type, buf) =
      is_connack type
      && (let (rc, connack_rc) = lib.paho.deserialize_connack buf in is_one rc && connack_rc == 0)

  -- The suback is there and grants the qos 0.
  abbrev pub is_granted : ℤ × Bytes → Bool
  is_granted (type, buf) = is_type suback type && is_zero (lib.granted_qos buf)

  abbrev pub read : MqttState → MqttState
  read s = record s { history = read_packet ∷ s.history }

  abbrev pub reply : MqttState → ℤ × Bytes
  reply s = env.packet s.history

  -- A request whose answer decides between going on and `goto exit`.
  unfoldable pub greet : MqttState → Bool × MqttState
  unfolding send
  greet s =
      let s1 = read (send (lib.paho.serialize_connect buflen connect_data) s) in
      (is_welcome (reply s1), s1)

  unfoldable pub subscribe : MqttState → Bool × MqttState
  unfolding send
  subscribe s =
      let s1 = read (send (lib.serialize_subscribe buflen subscription) s) in
      (is_granted (reply s1), s1)

  -- What arrives is printed, so that its payload is read.
  unfoldable pub show : ℤ × Bytes → Run (Unit {0})
  show (type, buf) =
      if is_type publish_type type then (do text ← need (lib.payload_in buf); ok tt) else ok tt

  -- while (!toStop) { … }; `none` if the fuel runs out.
  unfoldable pub listen : ℕ → MqttState → Fueled MqttState
  unfolding show send
  listen zero s = ok none
  listen (suc fuel) s =
      let rest = listen fuel (send (lib.paho.serialize_publish buflen reading) (read s)) in
      if env.be_stop s.history then ok (some s) else (do shown ← show (reply (read s)); rest)

  -- exit: transport_close(sock); return 0;
  unfoldable pub exit : MqttState → ℤ × MqttState
  exit s = (pos 0, record s { history = (close_socket env s.sock s.history).1 })

  -- From the subscription on.
  unfoldable pub converse : ℕ → MqttState → Fueled (ℤ × MqttState)
  unfolding subscribe listen exit send
  converse fuel s =
      let (granted, s1) = subscribe s in
      if granted
      then (do
        end ← listen fuel s1
        elim end [
          | none ↦ ok none
          | some s2 ↦ ok (some (exit (send (lib.paho.serialize_disconnect buflen) s2)))
        ])
      else ok (some (exit s1))

  -- The state behind the opening.
  abbrev pub opened : List Bytes → MqttState → MqttState
  opened argv s =
      let o = transport_open env (host_of argv) (port_of argv) s.history in
      record { history = o.history; sock = o.returned }

  unfoldable pub pub0sub1_main : ℕ → List Bytes → MqttState → Fueled (ℤ × MqttState)
  unfolding greet converse exit
  pub0sub1_main fuel argv s =
      let s1 = opened argv s in
      let (welcome, s2) = greet s1 in
      if is_negative s1.sock
      then ok (some (s1.sock, s1))
      else if welcome
      then converse fuel s2
      else ok (some (exit s2))
