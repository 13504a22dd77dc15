-- ===== src/Tcp/Run.antt =====
-- The thread that runs `tcp_main` comes to an end, and closes the connection that it opened last.
use factory_thing.Base.{
  ℕ, zero, suc, ◌-◌, ◌≤◌, ◌<◌, ◌≡◌, refl, true, false, some, ◌∷◌, arith, Bool-cases, inl, inr,
  length, not, ◌||◌,
}
use factory_thing.Int.{pos, is_negative}
use factory_thing.Config.Defs.{Configuration}
use factory_thing.Net.Defs.{close, recv, shutdown, sleep, History, Env, close_socket}
use factory_thing.Net.Growth.{StopsBy, tcp_open-lt}
use factory_thing.Tcp.Defs.{TcpState, opened, tcp_connect, connect_loop, wait_loop, tcp_main}

module _ (env : Env) (c : Configuration) (n : ℕ) (stops : StopsBy env n) where
  tcp_connect-lt : (s : TcpState) → length s.history < length (tcp_connect env c s).1.history
  unfolding tcp_connect
  tcp_connect-lt s = elim (Bool-cases (is_negative (opened env c s.history).returned)) [
    | inl e ↦ rw e (tcp_open-lt env c.tcp_brocker_ip c.tcp_brocker_port s.history)
    | inr e ↦ rw e (tcp_open-lt env c.tcp_brocker_ip c.tcp_brocker_port s.history)
  ]

  connect_loop_total :
      (fuel : ℕ) (s : TcpState)
      → n - length s.history < fuel
      → (s1 : TcpState) × (connect_loop env c fuel s ≡ some s1)
        × (length s.history ≤ length s1.history)
  unfolding connect_loop
  connect_loop_total zero s h = elim h [ ]
  connect_loop_total (suc fuel) s h =
      let s1 = (tcp_connect env c s).1 in
      let grows = tcp_connect-lt s in
      elim (Bool-cases (env.be_stop s1.history || not (is_negative (tcp_connect env c s).0))) [
        | inl e ↦ (s1, rw e, omega (arith, grows))
        | inr e ↦
            let (s2, r, g) = connect_loop_total fuel s1 (grind (arith, stops s1.history, grows)) in
            (s2, rw e r, omega (arith, grows, g))
      ]

  wait_loop_total :
      (fuel : ℕ) (s : TcpState)
      → n - length s.history < fuel
      → (s1 : TcpState) × (wait_loop env c fuel s ≡ some s1) × (s1.sock ≡ s.sock)
  unfolding wait_loop
  wait_loop_total zero s h = elim h [ ]
  wait_loop_total (suc fuel) s h = elim (Bool-cases (env.be_stop s.history)) [
    | inl e ↦ (s, rw e, refl)
    | inr e ↦
        let (s1, r, k) =
          wait_loop_total fuel (record s { history = sleep 5 ∷ s.history })
            (grind (arith, stops s.history)) in
        (s1, rw e r, k)
  ]

  -- The state behind `tcp_close(sock)`.
  closed : TcpState → TcpState
  closed s = record s { history = (close_socket env s.sock s.history).1 }

  tcp_main_run :
      (fuel : ℕ) (s s1 s2 : TcpState)
      → c.tcp_enable ≡ true
      → connect_loop env c fuel s ≡ some s1
      → wait_loop env c fuel s1 ≡ some s2
      → tcp_main env c fuel s ≡ some (pos 0, closed s2)
  unfolding tcp_main closed
  tcp_main_run fuel s s1 s2 on e1 e2 = ground arith

  -- Where `beStop` is set once n calls are made, fuel of n + 1 is enough for `tcp_main`, from any
  -- state. It returns 0; with TCP off it makes no call, and otherwise its last calls shut down and
  -- close the socket `sock`.
  pub tcp_main_total :
      (fuel : ℕ) (s : TcpState)
      → n < fuel
      → (s1 : TcpState) × (tcp_main env c fuel s ≡ some (pos 0, s1))
        × (c.tcp_enable ≡ false → s1 ≡ s)
        × (c.tcp_enable ≡ true
            → (h : History) × (s1.history
                ≡ close s1.sock ∷ recv s1.sock (pos 0) ∷ shutdown s1.sock ∷ h))
  unfolding tcp_main closed close_socket
  tcp_main_total fuel s h = elim (Bool-cases c.tcp_enable) [
    | inl on ↦
        let (s1, e1, g) = connect_loop_total fuel s (omega arith) in
        let (s2, e2, k) = wait_loop_total fuel s1 (omega arith) in
        (
          closed s2,
          tcp_main_run fuel s s1 s2 on e1 e2,
          λ off. absurd (ground arith),
          λ _. (s2.history, refl),
        )
    | inr off ↦ (s, ground arith, λ _. refl, λ on. absurd (ground arith))
  ]
