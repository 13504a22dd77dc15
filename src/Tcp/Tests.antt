-- ===== src/Tcp/Tests.antt =====
-- A connection that fails, a single shot publication, and the theorems at them.
use factory_thing.Base.{◌≡◌, refl, true, false, some, [], ◌∷◌, arith, leb, length}
use factory_thing.CString.Defs.{lit}
use factory_thing.Int.{ℤ, pos, minus_one}
use factory_thing.Config.Defs.{Configuration, zero_configuration}
use factory_thing.Net.Defs.{
  inet, Address, socket, connect, send, recv, shutdown, close, History, Env, resolved, tcp_open,
  transport_open, prefer_inet, open_resolved,
}
use factory_thing.Net.Open.{open_lem}
use factory_thing.Net.Added.{others}
use factory_thing.Net.Growth.{StopsBy}
use factory_thing.Tcp.Defs.{TcpState, tcp_main}
use factory_thing.Tcp.Socket.{transcript, publish_all, publish_all_lem}
use factory_thing.Tcp.Run.{tcp_main_total}

abbrev host : Address
host = record { family = inet; host = lit "10.0.0.2" }

-- Sockets are made and every connect() fails; sending sends all.
abbrev number : History → ℤ
number (socket f ∷ h) = pos 5
number (connect fd a p ∷ h) = minus_one
number (send fd buf n ∷ h) = n
number _ = pos 0

abbrev env : Env
env = record {
  resolve = λ h. resolved host [];
  result = number;
  packet = λ h. (pos 0, []);
  be_stop = λ h. leb 20 (length h);
}

env-StopsBy : StopsBy env 20
env-StopsBy h k = ground arith

abbrev c : Configuration
c = record zero_configuration {
  tcp_enable = true;
  singleshot = true;
  tcp_brocker_ip = lit "10.0.0.2";
  tcp_brocker_port = pos 5555;
}

abbrev start : TcpState
start = record { history = []; tcpsock = minus_one; sock = pos 0 }

-- The connection fails, and a descriptor is returned.
failed_connect : (tcp_open env c.tcp_brocker_ip c.tcp_brocker_port []).returned ≡ pos 5
unfolding tcp_open open_resolved
failed_connect = refl

open_lem_example :
    ((transport_open env (lit "h") (pos 1883) []).returned ≡ pos 5)
    × ((tcp_open env (lit "h") (pos 1883) []).returned ≡ pos 5)
unfolding prefer_inet
open_lem_example = open_lem env (lit "h") (pos 1883) []

-- Two texts: both are sent on the first descriptor, which is closed behind each.
publish_all_lem_example :
    let s1 = publish_all env c (lit "21.5" ∷ lit "22" ∷ []) start in
    (s1.sock ≡ pos 0)
    × (others s1.history
        ≡ close (pos 0)
          ∷ send (pos 0) (lit "22") (pos 2)
          ∷ close (pos 0)
          ∷ send (pos 0) (lit "21.5") (pos 4)
          ∷ [])
    × (c.singleshot ≡ false → s1.history ≡ transcript false (pos 0) (lit "21.5" ∷ lit "22" ∷ []) [])
publish_all_lem_example = publish_all_lem env c (lit "21.5" ∷ lit "22" ∷ []) start

tcp_main_total_example :
    (s1 : TcpState) × (tcp_main env c 21 start ≡ some (pos 0, s1))
    × (c.tcp_enable ≡ false → s1 ≡ start)
    × (c.tcp_enable ≡ true
        → (h : History) × (s1.history
            ≡ close s1.sock ∷ recv s1.sock (pos 0) ∷ shutdown s1.sock ∷ h))
tcp_main_total_example = tcp_main_total env c 20 env-StopsBy 21 start (omega arith)
