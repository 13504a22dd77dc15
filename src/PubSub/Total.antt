-- ===== src/PubSub/Total.antt =====
-- The whole run of the program.
use factory_thing.Base.{ℕ, suc, ◌≡◌, ◌⊎◌, true, List, ◌∷◌}
use factory_thing.CString.Defs.{Bytes}
use factory_thing.Int.{ℤ, pos, is_negative}
use factory_thing.Net.Defs.{Env}
use factory_thing.Net.Counts.{closes}
use factory_thing.Mqtt.Defs.{MqttState}
use factory_thing.PubSub.Defs.{Packets, buflen, connect_data, subscription}
use factory_thing.PubSub.Phases.{written, readings}

module _ (env : Env) (lib : Packets) where
  abbrev connect_packet : Bytes
  connect_packet = (lib.paho.serialize_connect buflen connect_data).1

  abbrev subscribe_packet : Bytes
  subscribe_packet = (lib.serialize_subscribe buflen subscription).1

  -- The packets of a session, behind those that were written before: the broker does not accept the
  -- connection, or not the subscription, or it does both and readings are published up to the end.
  pub data Session (before : List Bytes) : List Bytes → Type 0 where
    refused : Session before (connect_packet ∷ before)
    denied : Session before (subscribe_packet ∷ connect_packet ∷ before)
    complete :
        (k : ℕ)
        → Session before (
            (lib.paho.serialize_disconnect buflen).1
            ∷ readings env lib k (subscribe_packet ∷ connect_packet ∷ before))

  -- No connection is opened, and nothing is sent or closed; or there is a session, and close() is
  -- called once.
  abbrev pub Outcome : MqttState → ℤ → MqttState → Type 0
  Outcome s rc s1 =
      ((is_negative rc ≡ true)
        × (written s1.history ≡ written s.history)
        × (closes s1.history ≡ closes s.history))
      ⊎ ((rc ≡ pos 0)
          × Session (written s.history) (written s1.history)
          × (closes s1.history ≡ suc (closes s.history)))
