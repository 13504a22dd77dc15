-- ===== src/Mqtt/Publish.antt =====
-- What a publication sends.
use factory_thing.Base.{
  ℕ, ◌+◌, ◌≡◌, true, false, ◌∷◌, arith, ltb, if◌then◌else◌, Bool-cases, inl, inr,
}
use factory_thing.CString.Defs.{Bytes, strlen}
use factory_thing.Int.{ℤ, pos, negsuc}
use factory_thing.Config.Defs.{Configuration}
use factory_thing.Net.Defs.{write, Env}
use factory_thing.Mqtt.Defs.{Publication, Paho, MqttState, publication, mqtt_publish}

-- MQTTPacket_len of Paho: the header byte, the bytes of the length, and the rest.
abbrev pub packet_len : ℕ → ℕ
packet_len rem =
    rem
    + 1
    + (if ltb (rem + 1) 128
        then 1
        else if ltb (rem + 1) 16384
        then 2
        else if ltb (rem + 1) 2097151
        then 3
        else 4)

-- The length of a publication with quality of service 0.
abbrev pub publish_len : Publication → ℕ
publish_len p = packet_len (2 + strlen p.topic + strlen p.payload)

-- What Paho documents of MQTTSerialize_publish: it returns the length of the packet, or -2
-- (MQTTPACKET_BUFFER_TOO_SHORT) where the packet is longer than the buffer.
abbrev pub ReportsLength : Paho → Type 0
ReportsLength paho =
    (size : ℕ) (p : Publication)
    → ((ltb size (publish_len p) ≡ true) → (paho.serialize_publish size p).0 ≡ negsuc 1)
      × ((ltb size (publish_len p) ≡ false)
          → (paho.serialize_publish size p).0 ≡ pos (strlen (paho.serialize_publish size p).1))

module _ (env : Env) (paho : Paho) (c : Configuration) where
  -- The packet as `mqtt_publish` has it made.
  abbrev pub packet : Bytes → Bytes → ℤ × Bytes
  packet topic value = paho.serialize_publish 200 (publication env paho c topic value)

  -- `mqtt_publish` makes one call, of write() on `sock`, and returns what it returns. The count is
  -- the packet's length where the packet fits 200 bytes. Where it does not fit, the call is made
  -- all the same, with the count -2: a topic and value of 196 bytes together, or more, are not sent.
  pub mqtt_publish_lem :
      (topic value : Bytes) (s : MqttState)
      → ReportsLength paho
      → let buf = (packet topic value).1 in
        let count = if ltb 195 (strlen topic + strlen value) then negsuc 1 else pos (strlen buf) in
        let h = write s.sock buf count ∷ s.history in
        mqtt_publish env paho c topic value s ≡ (env.result h, record s { history = h })
  unfolding mqtt_publish
  mqtt_publish_lem topic value s reports =
      elim (Bool-cases (ltb 195 (strlen topic + strlen value))) [
        | inl long ↦ rw (long, (reports 200 (publication env paho c topic value)).0 (ground arith))
        | inr short ↦
            rw (short, (reports 200 (publication env paho c topic value)).1 (ground arith))
      ]
