-- ===== src/Mqtt/Descriptors.antt =====
-- Which descriptors the threads use, in every order of their steps.
use factory_thing.Base.{ℕ, ◌≡◌, ◌⊎◌, List, [], ◌∷◌, ◌++◌, Bool, ◌&&◌}
use factory_thing.Int.{ℤ, pos}
use factory_thing.Config.Defs.{Configuration}
use factory_thing.Net.Defs.{
  Call, write, recv, shutdown, close, read_packet, History, Env, transport_open,
}
use factory_thing.Net.Counts.{closes}
use factory_thing.Mqtt.Defs.{Paho, MqttState, is_connack, is_accepted}
use factory_thing.Mqtt.Threads.{Position, assigning, finished, Threads}

-- How often a thread has closed its socket at a position.
abbrev pub ended : Position → ℕ
ended finished = 1
ended _ = 0

module _ (env : Env) (c : Configuration) where
  -- The descriptor is 0, or what an opening among the calls has returned.
  abbrev pub FromOpening : History → ℤ → Type 0
  FromOpening h fd =
      (fd ≡ pos 0)
      ⊎ ((before : History) × (since : List Call) × (h
            ≡ since ++ (transport_open env c.mqtt_brocker_ip c.mqtt_brocker_port before).history)
          × (fd ≡ (transport_open env c.mqtt_brocker_ip c.mqtt_brocker_port before).returned))

  -- A call is made on such a descriptor; `h` are the calls before it.
  abbrev pub IsKnown : Call → History → Type 0
  IsKnown (write fd buf count) h = FromOpening h fd
  IsKnown (recv fd count) h = FromOpening h fd
  IsKnown (shutdown fd) h = FromOpening h fd
  IsKnown (close fd) h = FromOpening h fd
  IsKnown _ h = Unit

  abbrev pub AllKnown : History → Type 0
  AllKnown [] = Unit
  AllKnown (call ∷ h) = IsKnown call h × AllKnown h

  -- What the value still to be assigned to `sock` is.
  abbrev Pending : Position → History → Type 0
  Pending (assigning fd) h = FromOpening h fd
  Pending _ h = Unit

  abbrev Sound : Position × MqttState → Type 0
  Sound (p, s) =
      AllKnown s.history
      × FromOpening s.history s.sock
      × Pending p s.history
      × (closes s.history ≡ ended p)

  module _ (paho : Paho) where
    -- The broker has accepted the connection.
    abbrev accepted : MqttState → Bool
    accepted s =
        let (type, reply) = env.packet (read_packet ∷ s.history) in
        is_connack type && is_accepted env paho c reply

    abbrev at : Threads → Position × MqttState
    at t = (t.position, t.shared)
