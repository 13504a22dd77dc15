-- ===== src/Mqtt/Threads.antt =====
-- The thread of `mqtt_main` beside those that publish: one step at a time, in any order.
use factory_thing.Base.{Bool, true, false, List, [], ◌∷◌, if◌then◌else◌, ◌||◌, ◌&&◌, not}
use factory_thing.CString.Defs.{Bytes}
use factory_thing.Int.{ℤ, pos, is_negative}
use factory_thing.Config.Defs.{Configuration}
use factory_thing.Net.Defs.{sleep, shutdown, Env, transport_open, close_socket}
use factory_thing.Mqtt.Defs.{
  Paho, MqttState, send_connect, read_connack, send_disconnect, mqtt_publish,
}

-- What the thread of `mqtt_main` does next.
pub data Position : Type 0 where
  -- transport_open
  opening : Position
  -- sock = …, the value that it has returned
  assigning : ℤ → Position
  -- from MQTTSerialize_connect on, and MQTTPacket_read
  greeting reading : Position
  -- while(!beStop && rc < 0), with this rc
  testing : ℤ → Position
  -- while (!beStop)
  waiting : Position
  -- from MQTTSerialize_disconnect on, transport_close, and the return
  leaving closing finished : Position
  -- the end of a thread that is cancelled
  cancelled : Position

-- The calls of all threads, in the order in which they are made, `sock`, the position, and whether
-- `main` has called pthread_cancel for the thread.
pub record Threads : Type 0 where
  pub shared : MqttState
  pub position : Position
  pub asked : Bool

-- The first state, with the static variables as the program loads them.
abbrev pub loaded : Threads
loaded = record {
  shared = record { history = []; sock = pos 0 };
  position = opening;
  asked = false;
}

-- The thread that makes a step: that of `mqtt_main`, one that publishes, or that of `main` of
-- client-main.cpp, which cancels the first.
pub data Actor : Type 0 where
  main : Actor
  publisher : Bytes → Bytes → Actor
  canceller : Actor

module _ (env : Env) (paho : Paho) (c : Configuration) where
  -- One step of `mqtt_main`, MQTT being on. The calls of an opening are one step, and so are those of
  -- transport_close.
  unfoldable pub advance : Position → MqttState → Position × MqttState
  advance opening s =
      let o = transport_open env c.mqtt_brocker_ip c.mqtt_brocker_port s.history in
      (assigning o.returned, record s { history = o.history })
  advance (assigning fd) s =
      (if is_negative fd then testing fd else greeting, record s { sock = fd })
  advance greeting s = (reading, send_connect env paho c s)
  advance reading s = let (rc, s1) = read_connack env paho c s in (testing rc, s1)
  advance (testing rc) s =
      (if env.be_stop s.history || not (is_negative rc) then waiting else opening, s)
  advance waiting s =
      if env.be_stop s.history
      then (leaving, s)
      else (waiting, record s { history = sleep 3 ∷ s.history })
  advance leaving s = (closing, send_disconnect env paho c s)
  advance closing s = (finished, record s { history = (close_socket env s.sock s.history).1 })
  advance finished s = (finished, s)
  advance cancelled s = (cancelled, s)

  -- The step makes a call that is a cancellation point.
  abbrev pub calls_next : Position → MqttState → Bool
  calls_next opening s = true
  calls_next greeting s = true
  calls_next reading s = true
  calls_next waiting s = not (env.be_stop s.history)
  calls_next leaving s = true
  calls_next closing s = true
  calls_next _ s = false

  -- The calls before the cancellation point: shutdown is none.
  abbrev pub up_to_point : Position → MqttState → MqttState
  up_to_point closing s = record s { history = shutdown s.sock ∷ s.history }
  up_to_point _ s = s

  -- mqtt_publish and pthread_cancel may be called at any time.
  unfoldable pub move : Actor → Threads → Threads
  unfolding advance
  move main t =
      if t.asked && calls_next t.position t.shared
      then record t { position = cancelled; shared = up_to_point t.position t.shared }
      else (let (p, s) = advance t.position t.shared in record t { position = p; shared = s })
  move (publisher topic value) t = record t {
    shared = (mqtt_publish env paho c topic value t.shared).1;
  }
  move canceller t = record t { asked = true }

  -- A schedule: which thread makes a step, the first one first.
  unfoldable pub run : List Actor → Threads → Threads
  unfolding move
  run [] t = t
  run (a ∷ schedule) t = run schedule (move a t)

  -- The states that the threads come to from the first.
  pub data Reach : Threads → Type 0 where
    start : Reach loaded
    step : (a : Actor) (t : Threads) → Reach t → Reach (move a t)
