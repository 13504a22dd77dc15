-- ===== src/Net/Defs.antt =====
-- System calls as a history and an environment that answers them, and `transport_open` and
-- `tcp_open`, which are one text but for the options that they set.
use factory_thing.Base.{ℕ, suc, ◌-◌, ◌%◌, Bool, true, false, List, [], ◌∷◌, ◌==◌, if◌then◌else◌}
use factory_thing.CString.Defs.{Bytes}
use factory_thing.Int.{ℤ, pos, negsuc, minus_one, is_minus_one, is_zero}

pub data Family : Type 0 where
  inet inet6 : Family
  other_family : ℕ → Family

-- A socket address without its port.
pub record Address : Type 0 where
  pub family : Family
  pub host : Bytes

-- The options that are set on an open socket.
pub data SockOpt : Type 0 where
  receive_timeout no_delay linger : SockOpt

-- The calls that reach outside the bridge, with their arguments.
pub data Call : Type 0 where
  getaddrinfo : Bytes → Call
  socket : Family → Call
  connect : ℤ → Address → ℕ → Call
  setsockopt : ℤ → SockOpt → Call
  -- write(fd, buf, count) and send(fd, buf, count, MSG_NOSIGNAL); the count as the `int` given
  write : ℤ → Bytes → ℤ → Call
  send : ℤ → Bytes → ℤ → Call
  recv : ℤ → ℤ → Call
  shutdown : ℤ → Call
  close : ℤ → Call
  -- MQTTPacket_read, which reads one packet through `transport_getdata`
  read_packet : Call
  sleep : ℕ → Call

-- The calls made so far, the last one first.
abbrev pub History : Type 0
History = List Call

-- What getaddrinfo gives: an error code, or the addresses, of which there is one at least.
pub data Resolved : Type 0 where
  unresolved : ℤ → Resolved
  resolved : Address → List Address → Resolved

-- The answers of the world outside. Each may depend on all calls so far, the one that is answered
-- the first of them.
pub record Env : Type 0 where
  pub resolve : History → Resolved
  -- the number that a call returns
  pub result : History → ℤ
  -- what MQTTPacket_read returns, and the bytes that it leaves in the buffer
  pub packet : History → ℤ × Bytes
  -- whether a signal has set `beStop` by now
  pub be_stop : History → Bool

-- INVALID_SOCKET
abbrev pub invalid_socket : ℤ
invalid_socket = minus_one

abbrev pub is_inet : Family → Bool
is_inet inet = true
is_inet inet6 = false
is_inet (other_family n) = false

-- The loop that prefers IPv4, over the addresses from `res` on; `result` stays if there is none.
unfoldable pub prefer_inet : Address → List Address → Address
prefer_inet result [] = result
prefer_inet result (a ∷ res) =
    let later = prefer_inet result res in if is_inet a.family then a else later

-- htons, and the conversion of an int to 16 bits; the bytes are not swapped here.
abbrev pub htons : ℤ → ℕ
htons (pos n) = n % 65536
htons (negsuc n) = (65536 - suc n % 65536) % 65536

-- rc after the choice: only the two families are taken.
abbrev pub family_rc : Family → ℤ
family_rc inet = pos 0
family_rc inet6 = pos 0
family_rc (other_family n) = minus_one

-- if (addr[0] == '[') ++addr;
abbrev pub skip_bracket : Bytes → Bytes
skip_bracket [] = []
skip_bracket (c ∷ s) = if c == b'[' then s else c ∷ s

-- What an opening leaves: the calls, the static variable that holds the socket, and the value
-- returned.
pub record Opened : Type 0 where
  pub history : History
  pub kept : ℤ
  pub returned : ℤ

abbrev pub set_options : ℤ → List SockOpt → History → History
set_options fd [] h = h
set_options fd (o ∷ os) h = set_options fd os (setsockopt fd o ∷ h)

module _ (env : Env) where
  -- From the test of the socket on.
  abbrev pub finish : List SockOpt → ℤ → ℤ → History → Opened
  finish options fd rc h =
      if is_minus_one fd
      then record { history = h; kept = fd; returned = rc }
      else record { history = set_options fd options h; kept = fd; returned = fd }

  -- socket(), and connect() if there is one.
  unfoldable pub connect_to : List SockOpt → Address → ℤ → History → Opened
  connect_to options address port h =
      let h1 = socket address.family ∷ h in
      let fd = env.result h1 in
      let h2 = connect fd address (htons port) ∷ h1 in
      if is_minus_one fd then finish options fd (pos 0) h1 else finish options fd (env.result h2) h2

  unfoldable pub open_resolved : List SockOpt → Resolved → ℤ → History → Opened
  unfolding prefer_inet connect_to
  open_resolved options (unresolved rc) port h = finish options invalid_socket rc h
  open_resolved options (resolved first rest) port h =
      let address = prefer_inet first (first ∷ rest) in
      if is_zero (family_rc address.family)
      then connect_to options address port h
      else finish options invalid_socket (family_rc address.family) h

  abbrev pub open_socket : List SockOpt → Bytes → ℤ → History → Opened
  open_socket options addr port h =
      let h1 = getaddrinfo (skip_bracket addr) ∷ h in open_resolved options (env.resolve h1) port h1

  unfoldable pub transport_open : Bytes → ℤ → History → Opened
  transport_open = open_socket (receive_timeout ∷ [])

  unfoldable pub tcp_open : Bytes → ℤ → History → Opened
  tcp_open = open_socket (receive_timeout ∷ no_delay ∷ linger ∷ [])

  -- transport_getdata and tcp_getdata, on the static socket: recv's result.
  unfoldable pub getdata : ℤ → ℤ → History → ℤ × History
  getdata fd count h = let h1 = recv fd count ∷ h in (env.result h1, h1)

  -- transport_getdatanb and tcp_getdatanb: an error counts as no bytes.
  unfoldable pub getdatanb : ℤ → ℤ → History → ℤ × History
  getdatanb fd count h =
      let h1 = recv fd count ∷ h in
      let rc = env.result h1 in if is_minus_one rc then (pos 0, h1) else (rc, h1)

  -- transport_close and tcp_close; what close returns.
  unfoldable pub close_socket : ℤ → History → ℤ × History
  close_socket fd h = let h3 = close fd ∷ recv fd (pos 0) ∷ shutdown fd ∷ h in (env.result h3, h3)

  -- transport_sendPacketBuffer
  unfoldable pub transport_send_packet_buffer : ℤ → Bytes → ℤ → History → ℤ × History
  transport_send_packet_buffer fd buf len h = let h1 = write fd buf len ∷ h in (env.result h1, h1)
