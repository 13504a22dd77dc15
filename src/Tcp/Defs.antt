-- ===== src/Tcp/Defs.antt =====
-- `tcp_sendPacketBuffer`, `tcp_connect`, `tcp_publish` and `tcp_main`.
use factory_thing.Base.{ℕ, zero, suc, Option, none, some, ◌∷◌, if◌then◌else◌, ◌||◌, not}
use factory_thing.CString.Defs.{Bytes, strlen}
use factory_thing.Int.{ℤ, pos, is_negative}
use factory_thing.Config.Defs.{Configuration}
use factory_thing.Net.Defs.{send, close, sleep, History, Env, Opened, tcp_open, close_socket}

-- The calls, `tcpsock` of client-trans-tcp.cpp and `sock` of client-tcp.c.
pub record TcpState : Type 0 where
  pub history : History
  pub tcpsock : ℤ
  pub sock : ℤ

module _ (env : Env) (c : Configuration) where
  -- tcp_open, called with the broker's address.
  abbrev pub opened : History → Opened
  opened h = tcp_open env c.tcp_brocker_ip c.tcp_brocker_port h

  -- In single shot mode the connection is closed behind every packet and opened anew.
  unfoldable pub tcp_send_packet_buffer : ℤ → Bytes → ℤ → TcpState → ℤ × TcpState
  tcp_send_packet_buffer fd buf len s =
      let h1 = send fd buf len ∷ s.history in
      let o = opened (close fd ∷ h1) in
      let reopened = record s { history = o.history; tcpsock = o.returned } in
      (env.result h1, (if c.singleshot then reopened else record s { history = h1 }))

  unfoldable pub tcp_connect : TcpState → ℤ × TcpState
  tcp_connect s =
      let o = opened s.history in
      let s1 = record s { history = o.history; tcpsock = o.kept; sock = o.returned } in
      if is_negative o.returned then (o.returned, s1) else (pos 0, s1)

  -- The mode and the topic are only printed.
  unfoldable pub tcp_publish : Bytes → TcpState → ℤ × TcpState
  tcp_publish value s = tcp_send_packet_buffer s.sock value (pos (strlen value)) s

  -- do { rc = tcp_connect(); } while (!beStop && rc < 0); `none` if the fuel runs out.
  unfoldable pub connect_loop : ℕ → TcpState → Option TcpState
  connect_loop zero s = none
  connect_loop (suc fuel) s =
      let (rc, s1) = tcp_connect s in
      let again = connect_loop fuel s1 in
      if env.be_stop s1.history || not (is_negative rc) then some s1 else again

  -- while (!beStop) sleep(5);
  unfoldable pub wait_loop : ℕ → TcpState → Option TcpState
  wait_loop zero s = none
  wait_loop (suc fuel) s =
      let again = wait_loop fuel (record s { history = sleep 5 ∷ s.history }) in
      if env.be_stop s.history then some s else again

  -- Both loops have the fuel; the value returned is 0.
  unfoldable pub tcp_main : ℕ → TcpState → Option (ℤ × TcpState)
  tcp_main fuel s = if not c.tcp_enable then some (pos 0, s) else elim (connect_loop fuel s) [
    | none ↦ none
    | some s1 ↦ elim (wait_loop fuel s1) [
      | none ↦ none
      | some s2 ↦ some (pos 0, record s2 { history = (close_socket env s2.sock s2.history).1 })
    ]
  ]
