-- ===== src/Amqp/Defs.antt =====
-- `amqp_main` and `amqp_publish`, over the calls of librabbitmq.
use factory_thing.Base.{
  ℕ, zero, suc, Bool, true, false, ◌&&◌, not, Option, none, some, List, [], ◌∷◌, if◌then◌else◌, Run,
  ok, fault, bad_pointer, out_of_range, deleted, Fueled,
}
use factory_thing.CString.Defs.{Bytes}
use factory_thing.Int.{ℤ, pos, is_negative, is_zero}
use factory_thing.Config.Defs.{Configuration}

-- The calls that reach outside the program.
pub data AmqpCall : Type 0 where
  new_connection ssl_socket_new set_verify_peer set_verify_hostname : AmqpCall
  socket_open : Bytes → ℤ → AmqpCall
  login channel_open get_rpc_reply : AmqpCall
  basic_publish : Bytes → AmqpCall
  channel_close connection_close destroy_connection : AmqpCall
  sleep : ℕ → AmqpCall

-- The last call first.
abbrev pub AmqpCalls : Type 0
AmqpCalls = List AmqpCall

-- What the last call gives: whether amqp_ssl_socket_new gives a socket and not NULL, the int
-- returned, whether the type of an amqp_rpc_reply_t is AMQP_RESPONSE_NORMAL; and whether a signal
-- has set `beStop` by then.
pub record Broker : Type 0 where
  pub has_socket : AmqpCalls → Bool
  pub status : AmqpCalls → ℤ
  pub is_normal : AmqpCalls → Bool
  pub be_stop : AmqpCalls → Bool

-- `conn`: not set yet, a connection, or one that has been destroyed.
pub data Conn : Type 0 where
  unset usable destroyed : Conn

-- The calls, `conn` and `bC`.
pub record AmqpState : Type 0 where
  pub calls : AmqpCalls
  pub conn : Conn
  pub connected : Bool

-- `amqp_main` returns a value, or the program exits with a status.
pub data Left : Type 0 where
  returned : ℤ → Left
  exited : ℕ → Left

abbrev pub calling : AmqpCall → AmqpState → AmqpState
calling call s = record s { calls = call ∷ s.calls }

-- exit(1), by `die` and its kind.
abbrev pub die : AmqpState → Fueled (Left × AmqpState)
die s = ok (some (exited 1, s))

-- sizeof(value), the size of a pointer.
abbrev pub size_of_value : ℕ
size_of_value = 8

-- So many bytes from the front of a string that ends in a NUL; reading behind it is a fault.
unfoldable pub bytes_at : ℕ → Bytes → Run Bytes
bytes_at zero value = ok []
bytes_at (suc zero) [] = ok (0 ∷ [])
bytes_at (suc (suc n)) [] = fault out_of_range
bytes_at (suc n) (b ∷ value) = elim (bytes_at n value) [
  | ok bytes ↦ ok (b ∷ bytes)
  | fault why ↦ fault why
]

-- amqp_publish(mode, topic, value): the mode and the topic are only printed.
unfoldable pub amqp_publish : Bytes → AmqpState → Run (ℤ × AmqpState)
unfolding bytes_at
amqp_publish value s = if not s.connected then ok (pos 0, s) else elim s.conn [
  | usable ↦ elim (bytes_at size_of_value value) [
    | ok bytes ↦ ok (pos 0, calling (basic_publish bytes) s)
    | fault why ↦ fault why
  ]
  | destroyed ↦ fault deleted
  | unset ↦ fault bad_pointer
]

module _ (broker : Broker) (c : Configuration) where
  -- One round of the loop that makes a socket; `continue` goes on to its condition.
  unfoldable pub new_socket : AmqpState → Bool × AmqpState
  new_socket s =
      let s1 = record s { calls = ssl_socket_new ∷ new_connection ∷ s.calls; conn = usable } in
      if broker.has_socket s1.calls then (true, s1) else (false, calling (sleep 3) s1)

  -- do { … } while(!beStop && !socket); `none` if the fuel runs out.
  unfoldable pub socket_loop : ℕ → AmqpState → Option (Bool × AmqpState)
  unfolding new_socket
  socket_loop zero s = none
  socket_loop (suc fuel) s =
      let (socket, s1) = new_socket s in
      let again = socket_loop fuel s1 in
      if not (broker.be_stop s1.calls) && not socket then again else some (socket, s1)

  -- while(!beStop) { sleep(2); }
  unfoldable pub idle_loop : ℕ → AmqpState → Option AmqpState
  idle_loop zero s = none
  idle_loop (suc fuel) s =
      let again = idle_loop fuel (calling (sleep 2) s) in
      if broker.be_stop s.calls then some s else again

  -- A call whose reply must be normal, and what follows it.
  abbrev pub or_die : AmqpState → Fueled (Left × AmqpState) → Fueled (Left × AmqpState)
  or_die s next = if broker.is_normal s.calls then next else die s

  -- From amqp_channel_close on.
  unfoldable pub close_all : AmqpState → Fueled (Left × AmqpState)
  close_all s =
      let s1 = calling channel_close s in
      let s2 = calling connection_close s1 in
      let s3 = record s2 { calls = destroy_connection ∷ s2.calls; conn = destroyed } in
      or_die s1 (
        or_die s2 (
          if is_negative (broker.status s3.calls)
          then die s3
          else ok (some (returned (pos 0), s3))))

  -- From amqp_socket_open on. The broker of MQTT gives the address.
  unfoldable pub converse : ℕ → AmqpState → Fueled (Left × AmqpState)
  unfolding idle_loop close_all
  converse fuel s =
      let s1 = calling (socket_open c.mqtt_brocker_ip c.mqtt_brocker_port) s in
      let s2 = calling login s1 in
      let s3 = calling get_rpc_reply (calling channel_open s2) in
      let rest : Fueled (Left × AmqpState) =
        elim (idle_loop fuel (record s3 { connected = true })) [
          | none ↦ ok none
          | some s4 ↦ close_all s4
        ] in
      if is_zero (broker.status s1.calls) then or_die s2 (or_die s3 rest) else die s1

  -- The options are set on the socket, which must not be NULL.
  unfoldable pub with_socket : ℕ → Bool × AmqpState → Fueled (Left × AmqpState)
  unfolding converse
  with_socket fuel (socket, s) =
      if socket
      then converse fuel
          (record s { calls = set_verify_hostname ∷ set_verify_peer ∷ s.calls; connected = false })
      else fault bad_pointer

  unfoldable pub amqp_main : ℕ → AmqpState → Fueled (Left × AmqpState)
  unfolding socket_loop with_socket
  amqp_main fuel s =
      if not c.amqp_enable
      then ok (some (returned (pos 0), s))
      else elim (socket_loop fuel s) [ none ↦ ok none | some made ↦ with_socket fuel made ]
