-- ===== src/Mqtt/ThreadsTests.antt =====
-- A publication before the connection, and the theorems at a schedule.
use factory_thing.Base.{◌≡◌, refl, true, List, [], ◌∷◌, ◌++◌, arith, leb, length}
use factory_thing.CString.Defs.{lit}
use factory_thing.Int.{ℤ, pos}
use factory_thing.Config.Defs.{Configuration, zero_configuration}
use factory_thing.Net.Defs.{
  inet, socket, write, History, Env, resolved, transport_open, open_resolved, prefer_inet,
  connect_to, transport_send_packet_buffer,
}
use factory_thing.Net.Growth.{StopsBy}
use factory_thing.Net.Counts.{closes}
use factory_thing.Mqtt.Defs.{Paho, MqttState, mqtt_publish}
use factory_thing.Mqtt.Threads.{
  cancelled, Threads, loaded, Actor, main, publisher, canceller, advance, move, run,
}
use factory_thing.Mqtt.Finishes.{is_over, run_finishes}
use factory_thing.Mqtt.Alone.{alone}

abbrev number : History → ℤ
number (socket f ∷ h) = pos 5
number _ = pos 0

-- The broker accepts at once, and a signal comes by ten calls.
abbrev env : Env
env = record {
  resolve = λ h. resolved (record { family = inet; host = lit "10.0.0.1" }) [];
  result = number;
  packet = λ h. (pos 2, []);
  be_stop = λ h. leb 10 (length h);
}

env-StopsBy : StopsBy env 10
env-StopsBy h k = ground arith

-- Empty packets.
abbrev paho : Paho
paho = record {
  serialize_connect = λ size d. (pos 0, []);
  serialize_publish = λ size p. (pos 0, p.payload);
  serialize_disconnect = λ size. (pos 0, []);
  deserialize_connack = λ buf. (pos 1, 0);
}

abbrev c : Configuration
c = record zero_configuration { mqtt_enable = true; mqtt_brocker_ip = lit "10.0.0.1" }

-- The numbers of the descriptors that are written to, the last one first.
abbrev written : History → List ℤ
written [] = []
written (write fd buf count ∷ h) = fd ∷ written h
written (_ ∷ h) = written h

abbrev sends : Actor
sends = publisher (lit "t") (lit "21")

-- The first publication goes to descriptor 0, before a socket is there, and the second goes out on
-- the new socket before the CONNECT packet does.
abbrev early : List Actor
early = sends ∷ main ∷ main ∷ sends ∷ main ∷ []

early_test : written (run env paho c early loaded).shared.history ≡ pos 5 ∷ pos 5 ∷ pos 0 ∷ []
unfolding run move advance mqtt_publish transport_send_packet_buffer transport_open open_resolved
    prefer_inet connect_to
early_test = refl

-- Cancelled where it sleeps, the thread leaves its socket open.
cancelled_test :
    let t = run env paho c (alone 5 ++ (canceller ∷ alone 20)) loaded in
    (t.position ≡ cancelled) × (closes t.shared.history ≡ 0)
unfolding run move advance mqtt_publish transport_send_packet_buffer transport_open open_resolved
    prefer_inet connect_to
cancelled_test = (refl, refl)

abbrev t : Threads
t = move env paho c main (move env paho c sends loaded)

abbrev schedule : List Actor
schedule = early ++ (alone 60 ++ (sends ∷ alone 60))

run_finishes_example : is_over (run env paho c schedule loaded).position ≡ true
run_finishes_example = run_finishes env paho c 10 schedule loaded env-StopsBy (ground arith)

abbrev first : MqttState
first = record { history = []; sock = pos 0 }

abbrev last : MqttState
last = record { history = (run env paho c (alone 20) loaded).shared.history; sock = pos 5 }
