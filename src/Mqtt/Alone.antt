-- ===== src/Mqtt/Alone.antt =====
-- The thread by itself does what `mqtt_main` does.
use factory_thing.Base.{ℕ, zero, suc, ◌≡◌, refl, false, List, [], ◌∷◌}
use factory_thing.Config.Defs.{Configuration}
use factory_thing.Net.Defs.{Env}
use factory_thing.Mqtt.Defs.{Paho, MqttState}
use factory_thing.Mqtt.Threads.{Position, Threads, Actor, main, advance, move, run}

-- So many steps of the thread alone.
abbrev pub alone : ℕ → List Actor
alone zero = []
alone (suc k) = main ∷ alone k

module _ (env : Env) (paho : Paho) (c : Configuration) where
  -- The thread comes by itself from one place to another.
  abbrev Leads : Threads → Threads → Type 0
  Leads t t1 = (k : ℕ) × (run env paho c (alone k) t ≡ t1)

  abbrev at : Position → MqttState → Threads
  at p s = record { shared = s; position = p; asked = false }

  one_step :
      (p : Position) (s : MqttState)
      → let (p1, s1) = advance env paho c p s in Leads (at p s) (at p1 s1)
  unfolding run move
  one_step p s = (1, refl)
