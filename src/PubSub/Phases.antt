-- ===== src/PubSub/Phases.antt =====
-- What each part of the program sends.
use factory_thing.Base.{
  ℕ, zero, suc, ◌-◌, ◌<◌, ◌≤◌, ◌≡◌, ◌∙◌, refl, ap, true, some, List, [], ◌∷◌, arith, length,
  Bool-cases, inl, inr, ok,
}
use factory_thing.CString.Defs.{Bytes}
use factory_thing.Int.{ℤ}
use factory_thing.Net.Defs.{
  Call, write, getaddrinfo, socket, connect, setsockopt, History, Env, close_socket, transport_open,
  transport_send_packet_buffer,
}
use factory_thing.Net.Added.{IsOpening, Adds-keeps, transport_open-Adds}
use factory_thing.Net.Growth.{StopsBy}
use factory_thing.Net.Counts.{closes}
use factory_thing.Mqtt.Defs.{MqttState}
use factory_thing.PubSub.Defs.{
  Packets, buflen, is_type, publish_type, connect_data, subscription, reading, send, read, greet,
  subscribe, show, listen, exit,
}

-- The packets written, the last one first.
abbrev pub written : History → List Bytes
written [] = []
written (write fd buf count ∷ h) = buf ∷ written h
written (_ ∷ h) = written h

written_one : (call : Call) (h : History) → IsOpening call → written (call ∷ h) ≡ written h
written_one (getaddrinfo name) h is = refl
written_one (socket f) h is = refl
written_one (connect fd a port) h is = refl
written_one (setsockopt fd o) h is = refl
written_one _ h is = absurd is

-- An opening sends nothing.
pub transport_open-written :
    (env : Env) (addr : Bytes) (port : ℤ) (h : History)
    → written (transport_open env addr port h).history ≡ written h
transport_open-written env addr port h =
    Adds-keeps written written_one _ _ (transport_open-Adds env addr port h)

module _ (env : Env) (lib : Packets) where
  -- Each packet of type PUBLISH that is read is found to be one by MQTTDeserialize_publish.
  abbrev pub AllParse : Type 0
  AllParse =
      (h : History)
      → is_type publish_type (env.packet h).0 ≡ true
      → (text : Bytes) × (lib.payload_in (env.packet h).1 ≡ some text)

  -- It sends one packet, and closes nothing.
  abbrev Requests : Bytes → MqttState → MqttState → Type 0
  Requests packet s s1 =
      (written s1.history ≡ packet ∷ written s.history)
      × (closes s1.history ≡ closes s.history)
      × (length s.history ≤ length s1.history)

  pub greet-Requests :
      (s : MqttState)
      → Requests (lib.paho.serialize_connect buflen connect_data).1 s (greet env lib s).1
  unfolding greet send transport_send_packet_buffer
  greet-Requests s = (refl, omega arith, omega arith)

  pub subscribe-Requests :
      (s : MqttState)
      → Requests (lib.serialize_subscribe buflen subscription).1 s (subscribe env lib s).1
  unfolding subscribe send transport_send_packet_buffer
  subscribe-Requests s = (refl, omega arith, omega arith)

  pub send-Requests :
      (packet : ℤ × Bytes) (s : MqttState) → Requests packet.1 s (send env lib packet s)
  unfolding send transport_send_packet_buffer
  send-Requests packet s = (refl, omega arith, omega arith)

  publish-Requests :
      (s : MqttState)
      → Requests
          (lib.paho.serialize_publish buflen reading).1
          s
          (send env lib (lib.paho.serialize_publish buflen reading) (read env lib s))
  unfolding send transport_send_packet_buffer
  publish-Requests s = (refl, omega arith, omega arith)

  pub exit_calls :
      (s : MqttState)
      → let s1 = (exit env lib s).1 in
        (written s1.history ≡ written s.history) × (closes s1.history ≡ suc (closes s.history))
  unfolding exit close_socket
  exit_calls s = (refl, omega arith)

  show-ok : AllParse → (h : History) → show env lib (env.packet h) ≡ ok tt
  unfolding show
  show-ok parse h = elim (Bool-cases (is_type publish_type (env.packet h).0)) [
    | inl is ↦ let (text, e) = parse h is in rw (is, e) refl
    | inr other ↦ rw other refl
  ]

  -- The packet of the reading, so many times before others.
  abbrev pub readings : ℕ → List Bytes → List Bytes
  readings zero packets = packets
  readings (suc k) packets = readings k ((lib.paho.serialize_publish buflen reading).1 ∷ packets)

  pub listen_total :
      (n fuel : ℕ) (s : MqttState)
      → AllParse
      → StopsBy env n
      → n - length s.history < fuel
      → (k : ℕ) × (s1 : MqttState) × (listen env lib fuel s ≡ ok (some s1))
        × (written s1.history ≡ readings k (written s.history))
        × (closes s1.history ≡ closes s.history)
  unfolding listen
  listen_total n zero s parse stops h = absurd (omega arith)
  listen_total n (suc fuel) s parse stops h = elim (Bool-cases (env.be_stop s.history)) [
    | inl stop ↦ (0, s, rw stop refl, refl, refl)
    | inr on ↦
        let s1 = send env lib (lib.paho.serialize_publish buflen reading) (read env lib s) in
        let (w, same, longer) = publish-Requests s in
        let (k, s2, e, w2, same2) =
          listen_total n fuel s1 parse stops (grind (arith, stops s.history, longer)) in
        (
          suc k,
          s2,
          rw (on, show-ok parse (read env lib s).history) e,
          w2 ∙ ap (readings k) w,
          same2 ∙ same,
        )
  ]
