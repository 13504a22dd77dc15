-- ===== src/Mqtt/Tests.antt =====
-- A broker that refuses every connection, and the theorems at it.
use factory_thing.Base.{
  ℕ, zero, suc, ◌≡◌, refl, ap, sym, true, false, some, [], ◌∷◌, arith, if◌then◌else◌, ltb, leb,
  length,
}
use factory_thing.CString.Defs.{Bytes, lit, strlen}
use factory_thing.Int.{ℤ, pos, negsuc, minus_one}
use factory_thing.Config.Defs.{Configuration, zero_configuration}
use factory_thing.Net.Defs.{
  inet, Address, socket, write, History, Env, resolved, transport_open, open_resolved,
}
use factory_thing.Net.Growth.{StopsBy}
use factory_thing.Net.Counts.{closes}
use factory_thing.Mqtt.Defs.{Paho, MqttState, mqtt_publish, handshake, mqtt_connect, mqtt_main}
use factory_thing.Mqtt.Publish.{publish_len, ReportsLength, packet, mqtt_publish_lem}
use factory_thing.Mqtt.Session.{mqtt_main_total}

abbrev host : Address
host = record { family = inet; host = lit "10.0.0.1" }

abbrev number : History → ℤ
number (socket f ∷ h) = pos 5
number _ = pos 0

abbrev env : Env
env = record {
  resolve = λ h. resolved host [];
  result = number;
  packet = λ h. (pos 2, []);
  be_stop = λ h. leb 20 (length h);
}

env-StopsBy : StopsBy env 20
env-StopsBy h k = ground arith

-- So many zero bytes.
abbrev zeros : ℕ → Bytes
zeros n = elim n [ zero ↦ [] | suc (k → z) ↦ 0 ∷ z ]

-- Packets of the right length, all zero, and a broker that answers 5: not authorized.
abbrev paho : Paho
paho = record {
  serialize_connect = λ size d. (pos 20, zeros 20);
  serialize_publish = λ size p.
      if ltb size (publish_len p)
      then (negsuc 1, [])
      else (pos (publish_len p), zeros (publish_len p));
  serialize_disconnect = λ size. (pos 2, zeros 2);
  deserialize_connack = λ buf. (pos 1, 5);
}

strlen-zeros : (n : ℕ) → strlen (zeros n) ≡ n
strlen-zeros zero = refl
strlen-zeros (suc n) = ap suc (strlen-zeros n)

paho-ReportsLength : ReportsLength paho
paho-ReportsLength size p =
    (λ long. rw long, λ short. rw short (ap pos (sym (strlen-zeros (publish_len p)))))

abbrev c : Configuration
c = record zero_configuration { mqtt_enable = true; mqtt_brocker_ip = lit "10.0.0.1" }

abbrev start : MqttState
start = record { history = []; sock = pos 0 }

-- The connection is refused, and its socket stays open.
refused_connect : (mqtt_connect env paho c start).0 ≡ minus_one
unfolding mqtt_connect handshake transport_open open_resolved
refused_connect = refl

mqtt_publish_lem_example :
    let buf = (packet env paho c (lit "t/a") (lit "21.5")).1 in
    let h = write (pos 0) buf (pos (strlen buf)) ∷ [] in
    mqtt_publish env paho c (lit "t/a") (lit "21.5") start
    ≡ (env.result h, record { history = h; sock = pos 0 })
mqtt_publish_lem_example =
    mqtt_publish_lem env paho c (lit "t/a") (lit "21.5") start paho-ReportsLength

mqtt_main_total_example :
    (s1 : MqttState) × (mqtt_main env paho c 21 start ≡ some (pos 0, s1))
    × (c.mqtt_enable ≡ false → s1 ≡ start)
    × (c.mqtt_enable ≡ true → closes s1.history ≡ 1)
mqtt_main_total_example = mqtt_main_total env paho c 20 21 start env-StopsBy (omega arith)
