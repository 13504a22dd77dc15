-- ===== src/Amqp/Total.antt =====
-- How the thread of `amqp_main` ends, and what is sent.
use factory_thing.Base.{
  ℕ, zero, suc, ◌+◌, ◌-◌, ◌<◌, ◌≤◌, ◌≡◌, ◌⊎◌, inl, inr, refl, Bool, true, false, some, List, [],
  ◌∷◌, ◌++◌, arith, length, Bool-cases, ok, fault, bad_pointer, out_of_range, deleted, Fueled,
}
use factory_thing.CString.Defs.{Bytes, strlen}
use factory_thing.Int.{pos, is_negative, is_zero}
use factory_thing.Config.Defs.{Configuration}
use factory_thing.Amqp.Defs.{
  basic_publish, socket_open, sleep, destroy_connection, connection_close, channel_close, login,
  channel_open, get_rpc_reply, AmqpCalls, Broker, usable, destroyed, AmqpState, Left, returned,
  exited, calling, bytes_at, size_of_value, amqp_publish, new_socket, socket_loop, idle_loop,
  or_die, close_all, converse, with_socket, amqp_main,
}

-- The front of a list.
abbrev pub take {ℓ} : {A : Type ℓ} → ℕ → List A → List A
take zero xs = []
take (suc n) [] = []
take (suc n) (x ∷ xs) = x ∷ take n xs

bytes_at_lem :
    (n : ℕ) (value : Bytes)
    → (n ≤ strlen value + 1 → bytes_at n value ≡ ok (take n (value ++ (0 ∷ []))))
      × (strlen value + 1 < n → bytes_at n value ≡ fault out_of_range)
unfolding bytes_at
bytes_at_lem zero value = (λ le. refl, λ lt. absurd (omega arith))
bytes_at_lem (suc zero) [] = (λ le. refl, λ lt. absurd (omega arith))
bytes_at_lem (suc (suc n)) [] = (λ le. absurd (omega arith), λ lt. refl)
bytes_at_lem (suc n) (b ∷ value) =
    let (enough, short) = bytes_at_lem n value in
    (λ le. rw (enough (omega arith)) refl, λ lt. rw (short (omega arith)) refl)

-- On a connection that is open, a text of seven bytes or more is published as its first eight bytes,
-- its NUL among them, and no more of it; a shorter one is read beyond its end.
amqp_publish_lem :
    (value : Bytes) (s : AmqpState)
    → s.connected ≡ true
    → s.conn ≡ usable
    → (7 ≤ strlen value
        → amqp_publish value s
          ≡ ok (pos 0, calling (basic_publish (take size_of_value (value ++ (0 ∷ [])))) s))
      × (strlen value < 7 → amqp_publish value s ≡ fault out_of_range)
unfolding amqp_publish
amqp_publish_lem value s on is =
    let (enough, short) = bytes_at_lem 8 value in
    (λ le. simp (on, is, enough (omega arith)) refl, λ lt. simp (on, is, short (omega arith)) refl)

-- A signal sets `beStop` by the time that so many calls are made.
abbrev pub AmqpStopsBy : Broker → ℕ → Type 0
AmqpStopsBy broker n = (calls : AmqpCalls) → n ≤ length calls → broker.be_stop calls ≡ true

module _ (broker : Broker) (c : Configuration) where
  -- Each publication from a state on uses a connection that is gone.
  abbrev pub Dangling : AmqpState → Type 0
  Dangling s = (value : Bytes) → amqp_publish value s ≡ fault deleted

  -- The program exits with the status 1, or 0 is returned and the connection is left dangling.
  abbrev pub Ending : Left × AmqpState → Type 0
  Ending (left, s) = (left ≡ exited 1) ⊎ ((left ≡ returned (pos 0)) × Dangling s)

  abbrev pub Ended : Fueled (Left × AmqpState) → Type 0
  Ended run = (r : Left × AmqpState) × (run ≡ ok (some r)) × Ending r

  or_die-Ended :
      (s : AmqpState) (next : Fueled (Left × AmqpState))
      → Ended next
      → Ended (or_die broker c s next)
  or_die-Ended s next ended = elim (Bool-cases (broker.is_normal s.calls)) [
    | inl normal ↦ rw normal ended
    | inr other ↦ rw other ((exited 1, s), refl, inl refl)
  ]

  dangling : (s : AmqpState) → s.connected ≡ true → s.conn ≡ destroyed → Dangling s
  unfolding amqp_publish
  dangling s on gone value = rw (on, gone) refl

  close_all-Ended : (s : AmqpState) → s.connected ≡ true → Ended (close_all broker c s)
  unfolding close_all
  close_all-Ended s on =
      let s3 = record s {
        calls = destroy_connection ∷ connection_close ∷ channel_close ∷ s.calls;
        conn = destroyed;
      } in
      or_die-Ended _ _ (
        or_die-Ended _ _ (elim (Bool-cases (is_negative (broker.status s3.calls))) [
          | inl bad ↦ rw bad ((exited 1, s3), refl, inl refl)
          | inr good ↦ rw good ((returned (pos 0), s3), refl, inr (refl, dangling s3 on refl))
        ]))

  idle_loop_total :
      (n fuel : ℕ) (s : AmqpState)
      → AmqpStopsBy broker n
      → n - length s.calls < fuel
      → (s1 : AmqpState) × (idle_loop broker c fuel s ≡ some s1) × (s1.connected ≡ s.connected)
  unfolding idle_loop
  idle_loop_total n zero s stops h = absurd (omega arith)
  idle_loop_total n (suc fuel) s stops h = elim (Bool-cases (broker.be_stop s.calls)) [
    | inl stop ↦ (s, rw stop refl, refl)
    | inr on ↦
        let (s1, e, same) =
          idle_loop_total n fuel (calling (sleep 2) s) stops (grind (arith, stops s.calls)) in
        (s1, rw on e, same)
  ]

  converse-Ended :
      (n fuel : ℕ) (s : AmqpState)
      → AmqpStopsBy broker n
      → n < fuel
      → Ended (converse broker c fuel s)
  unfolding converse
  converse-Ended n fuel s stops h =
      let s1 = calling (socket_open c.mqtt_brocker_ip c.mqtt_brocker_port) s in
      let s3 = record s1 {
        calls = get_rpc_reply ∷ channel_open ∷ login ∷ s1.calls;
        connected = true;
      } in
      let (s4, e, on) = idle_loop_total n fuel s3 stops (omega arith) in
      elim (Bool-cases (is_zero (broker.status s1.calls))) [
        | inl opened ↦
            rw opened (or_die-Ended _ _ (or_die-Ended _ _ (rw e (close_all-Ended s4 on))))
        | inr failed ↦ rw failed ((exited 1, s1), refl, inl refl)
      ]

  new_socket-lt : (s : AmqpState) → length s.calls < length (new_socket broker c s).1.calls
  unfolding new_socket
  new_socket-lt s = ground arith

  socket_loop_total :
      (n fuel : ℕ) (s : AmqpState)
      → AmqpStopsBy broker n
      → n - length s.calls < fuel
      → (socket : Bool) × (s1 : AmqpState) × (socket_loop broker c fuel s ≡ some (socket, s1))
        × ((socket ≡ true) ⊎ (broker.be_stop s1.calls ≡ true))
  unfolding socket_loop
  socket_loop_total n zero s stops h = absurd (omega arith)
  socket_loop_total n (suc fuel) s stops h =
      let (socket, s1) = new_socket broker c s in
      elim (Bool-cases socket) [
        | inl made ↦ (true, s1, ground (arith, made), inl refl)
        | inr none_made ↦ elim (Bool-cases (broker.be_stop s1.calls)) [
          | inl stop ↦ (false, s1, ground (arith, none_made, stop), inr stop)
          | inr on ↦
              let (socket1, s2, e, end) =
                socket_loop_total n fuel s1 stops
                  (grind (arith, stops s1.calls, new_socket-lt s)) in
              (socket1, s2, ground (arith, none_made, on, e), end)
        ]
      ]

  -- AMQP is off, and nothing is called; or the run comes to one of its endings; or a signal comes
  -- before there is a socket, and NULL is used as one.
  abbrev pub Outcome : ℕ → AmqpState → Type 0
  Outcome fuel s =
      ((c.amqp_enable ≡ false) × (amqp_main broker c fuel s ≡ ok (some (returned (pos 0), s))))
      ⊎ ((c.amqp_enable ≡ true) × Ended (amqp_main broker c fuel s))
      ⊎ ((c.amqp_enable ≡ true)
          × (amqp_main broker c fuel s ≡ fault bad_pointer)
          × ((s1 : AmqpState) × (socket_loop broker c fuel s ≡ some (false, s1))
              × (broker.be_stop s1.calls ≡ true)))

  -- Where a signal comes by n calls, fuel of n + 1 is enough for amqp_main. With AMQP off it returns
  -- 0 and makes no call. With AMQP on, the program exits with the status 1, or 0 is returned and
  -- each publication from then on uses a connection that has been destroyed; or a signal comes
  -- before there is a socket, and NULL is used as one.
  pub amqp_main_total :
      (n fuel : ℕ) (s : AmqpState) → AmqpStopsBy broker n → n < fuel → Outcome fuel s
  unfolding amqp_main with_socket
  amqp_main_total n fuel s stops h = elim (Bool-cases c.amqp_enable) [
    | inr off ↦ inl (off, rw off refl)
    | inl on ↦
        let (socket, s1, e, end) = socket_loop_total n fuel s stops (omega arith) in
        by_socket socket s1 on e end
  ]
    where
      by_socket :
          (socket : Bool) (s1 : AmqpState)
          → c.amqp_enable ≡ true
          → socket_loop broker c fuel s ≡ some (socket, s1)
          → (socket ≡ true) ⊎ (broker.be_stop s1.calls ≡ true)
          → Outcome fuel s
      by_socket true s1 on e end = inr (inl (on, rw (on, e) (converse-Ended n fuel _ stops h)))
      by_socket false s1 on e (inl clash) = cc
      by_socket false s1 on e (inr stop) = inr (inr (on, rw (on, e) refl, (s1, e, stop)))
