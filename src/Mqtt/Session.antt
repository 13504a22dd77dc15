-- ===== src/Mqtt/Session.antt =====
-- The thread that runs `mqtt_main`: it ends, and closes one socket.
use factory_thing.Base.{
  ℕ, zero, suc, ◌+◌, ◌-◌, ◌≤◌, ◌<◌, ◌≡◌, ◌∙◌, refl, ap, true, false, some, ◌∷◌, arith, Bool-cases,
  inl, inr, length, not, ◌||◌,
}
use factory_thing.Int.{pos, is_negative}
use factory_thing.Config.Defs.{Configuration}
use factory_thing.Net.Defs.{sleep, Env, close_socket, transport_open, transport_send_packet_buffer}
use factory_thing.Net.Growth.{StopsBy, transport_open-lt}
use factory_thing.Net.Counts.{closes, transport_open-closes}
use factory_thing.Mqtt.Defs.{
  Paho, MqttState, handshake, mqtt_connect, connect_loop, wait_loop, disconnect, mqtt_main,
}

module _ (env : Env) (paho : Paho) (c : Configuration) where
  handshake_calls :
      (s : MqttState)
      → let s1 = (handshake env paho c s).1 in
        (length s1.history ≡ length s.history + 2)
        × (closes s1.history ≡ closes s.history)
        × (s1.sock ≡ s.sock)
  unfolding handshake transport_send_packet_buffer
  handshake_calls s = ground arith

  mqtt_connect_calls :
      (s : MqttState)
      → let s1 = (mqtt_connect env paho c s).1 in
        (length s.history < length s1.history) × (closes s1.history ≡ closes s.history)
  unfolding mqtt_connect
  mqtt_connect_calls s =
      let o = transport_open env c.mqtt_brocker_ip c.mqtt_brocker_port s.history in
      let longer = transport_open-lt env c.mqtt_brocker_ip c.mqtt_brocker_port s.history in
      let same = transport_open-closes env c.mqtt_brocker_ip c.mqtt_brocker_port s.history in
      let shaken = handshake_calls (record s { history = o.history; sock = o.returned }) in
      elim (Bool-cases (is_negative o.returned)) [
        | inl e ↦ rw e (longer, same)
        | inr e ↦ rw e (omega (arith, shaken.0, longer), shaken.1 ∙ same)
      ]

  connect_loop_total :
      (n fuel : ℕ) (s : MqttState)
      → StopsBy env n
      → n - length s.history < fuel
      → (s1 : MqttState) × (connect_loop env paho c fuel s ≡ some s1)
        × (length s.history ≤ length s1.history)
        × (closes s1.history ≡ closes s.history)
  unfolding connect_loop
  connect_loop_total n zero s stops h = elim h [ ]
  connect_loop_total n (suc fuel) s stops h =
      let (rc, s1) = mqtt_connect env paho c s in
      let (grows, same) = mqtt_connect_calls s in
      elim (Bool-cases (env.be_stop s1.history || not (is_negative rc))) [
        | inl e ↦ (s1, rw e, omega (arith, grows), same)
        | inr e ↦
            let (s2, r, g, k) =
              connect_loop_total n fuel s1 stops (grind (arith, stops s1.history, grows)) in
            (s2, rw e r, omega (arith, grows, g), k ∙ same)
      ]

  wait_loop_total :
      (n fuel : ℕ) (s : MqttState)
      → StopsBy env n
      → n - length s.history < fuel
      → (s1 : MqttState) × (wait_loop env paho c fuel s ≡ some s1)
        × (closes s1.history ≡ closes s.history)
  unfolding wait_loop
  wait_loop_total n zero s stops h = elim h [ ]
  wait_loop_total n (suc fuel) s stops h = elim (Bool-cases (env.be_stop s.history)) [
    | inl e ↦ (s, rw e, refl)
    | inr e ↦
        let (s1, r, k) =
          wait_loop_total n fuel (record s { history = sleep 3 ∷ s.history }) stops
            (grind (arith, stops s.history)) in
        (s1, rw e r, omega (arith, k))
  ]

  mqtt_main_run :
      (fuel : ℕ) (s s1 s2 : MqttState)
      → c.mqtt_enable ≡ true
      → connect_loop env paho c fuel s ≡ some s1
      → wait_loop env paho c fuel s1 ≡ some s2
      → mqtt_main env paho c fuel s ≡ some (pos 0, disconnect env paho c s2)
  unfolding mqtt_main
  mqtt_main_run fuel s s1 s2 on e1 e2 = ground arith

  disconnect-closes :
      (s : MqttState) → closes (disconnect env paho c s).history ≡ suc (closes s.history)
  unfolding disconnect close_socket transport_send_packet_buffer
  disconnect-closes s = ground arith

  -- Where `beStop` is set once n calls are made, fuel of n + 1 is enough for `mqtt_main`, from any
  -- state, and it returns 0. With MQTT off it makes no call. Otherwise it calls close() once,
  -- however many connections it has opened.
  pub mqtt_main_total :
      (n fuel : ℕ) (s : MqttState)
      → StopsBy env n
      → n < fuel
      → (s1 : MqttState) × (mqtt_main env paho c fuel s ≡ some (pos 0, s1))
        × (c.mqtt_enable ≡ false → s1 ≡ s)
        × (c.mqtt_enable ≡ true → closes s1.history ≡ suc (closes s.history))
  unfolding mqtt_main
  mqtt_main_total n fuel s stops h = elim (Bool-cases c.mqtt_enable) [
    | inl on ↦
        let (s1, e1, _, k1) = connect_loop_total n fuel s stops (omega arith) in
        let (s2, e2, k2) = wait_loop_total n fuel s1 stops (omega arith) in
        (
          disconnect env paho c s2,
          mqtt_main_run fuel s s1 s2 on e1 e2,
          λ off. absurd (ground arith),
          λ _. disconnect-closes s2 ∙ ap suc (k2 ∙ k1),
        )
    | inr off ↦ (s, ground arith, λ _. refl, λ on. absurd (ground arith))
  ]
