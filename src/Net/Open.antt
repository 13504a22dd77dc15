-- ===== src/Net/Open.antt =====
-- What opening a connection reports.
use factory_thing.Base.{◌≡◌, ◌↔◌, refl, true, false, List, [], ◌∷◌, ◌++◌, arith, if◌then◌else◌}
use factory_thing.CString.Defs.{Bytes}
use factory_thing.Int.{ℤ, pos, minus_one, is_negative, is_minus_one, is_zero}
use factory_thing.Net.Defs.{
  Family, Address, SockOpt, getaddrinfo, socket, History, Env, Resolved, unresolved, resolved,
  is_inet, prefer_inet, family_rc, skip_bracket, connect_to, open_resolved, transport_open,
  tcp_open,
}

-- No address of the list is an IPv4 one.
abbrev pub NoInet : List Address → Type 0
NoInet [] = Unit
NoInet (a ∷ xs) = (is_inet a.family ≡ false) × NoInet xs

-- An IPv4 address is taken if there is one, the first of them; otherwise the given one is kept.
pub prefer_inet_lem :
    (result : Address) (xs : List Address) (a : Address) (bs : List Address)
    → NoInet xs
    → (prefer_inet result xs ≡ result)
      × (is_inet a.family ≡ true → prefer_inet result (xs ++ (a ∷ bs)) ≡ a)
unfolding prefer_inet
prefer_inet_lem result [] a bs h = (refl, λ e. ground arith)
prefer_inet_lem result (x ∷ xs) a bs (h, hs) =
    let (kept, taken) = prefer_inet_lem result xs a bs hs in (rw h kept, λ e. rw h (taken e))

-- The address that the connection goes to.
abbrev pub chosen : Address → List Address → Address
chosen first rest = prefer_inet first (first ∷ rest)

-- socket() returns a descriptor or -1, after any calls.
abbrev pub SocketAnswers : Env → Type 0
SocketAnswers env =
    (f : Family) (h : History)
    → (is_negative (env.result (socket f ∷ h)) ≡ true)
    → env.result (socket f ∷ h) ≡ minus_one

module _ (env : Env) where
  -- Why an opening reports a negative number.
  abbrev pub Refused : Resolved → Type 0
  Refused (unresolved rc) = is_negative rc ≡ true
  Refused (resolved first rest) = is_zero (family_rc (chosen first rest).family) ≡ false

  connect_to_nonnegative :
      (options : List SockOpt) (a : Address) (port : ℤ) (h : History)
      → SocketAnswers env
      → is_negative (connect_to env options a port h).returned ≡ false
  unfolding connect_to
  connect_to_nonnegative options a port h answers = ground (arith, answers a.family h)

  open_resolved_negative :
      (options : List SockOpt) (r : Resolved) (port : ℤ) (h : History)
      → SocketAnswers env
      → (is_negative (open_resolved env options r port h).returned ≡ true) ↔ Refused r
  unfolding open_resolved
  open_resolved_negative options (unresolved rc) port h answers = (λ e. e, λ e. e)
  open_resolved_negative options (resolved first rest) port h answers =
      ground (arith, connect_to_nonnegative options (chosen first rest) port h answers)

  -- What getaddrinfo answers an opening.
  abbrev pub answer : Bytes → History → Resolved
  answer addr h = env.resolve (getaddrinfo (skip_bracket addr) ∷ h)

  -- Where socket() returns a descriptor or -1, `transport_open` and `tcp_open` return a negative
  -- number exactly if getaddrinfo fails with one, or the address chosen is neither of IPv4 nor of
  -- IPv6.
  open_negative :
      (addr : Bytes) (port : ℤ) (h : History)
      → SocketAnswers env
      → ((is_negative (transport_open env addr port h).returned ≡ true) ↔ Refused (answer addr h))
        × ((is_negative (tcp_open env addr port h).returned ≡ true) ↔ Refused (answer addr h))
  unfolding transport_open tcp_open
  open_negative addr port h answers = (
    open_resolved_negative _ (answer addr h) port _ answers,
    open_resolved_negative _ (answer addr h) port _ answers,
  )

  -- What socket() has given for the address that is chosen; 0 if it has failed.
  abbrev pub made : Address → History → ℤ
  made a h = let fd = env.result (socket a.family ∷ h) in if is_minus_one fd then pos 0 else fd

  -- The result of an opening, from what getaddrinfo has answered.
  abbrev pub opened_number : Resolved → History → ℤ
  opened_number (unresolved rc) h = rc
  opened_number (resolved first rest) h =
      if is_zero (family_rc (chosen first rest).family)
      then made (chosen first rest) h
      else minus_one

  open_resolved_returned :
      (options : List SockOpt) (r : Resolved) (port : ℤ) (h : History)
      → (open_resolved env options r port h).returned ≡ opened_number r h
  unfolding open_resolved connect_to
  open_resolved_returned options (unresolved rc) port h = refl
  open_resolved_returned options (resolved first rest) port h = ground arith

  -- `transport_open` and `tcp_open` return the same: the code of getaddrinfo, if that fails; -1, if
  -- the address chosen is neither of IPv4 nor of IPv6; and otherwise the descriptor of socket(), or
  -- 0 where socket() fails. What connect() returns has no part in it.
  pub open_lem :
      (addr : Bytes) (port : ℤ) (h : History)
      → let h1 = getaddrinfo (skip_bracket addr) ∷ h in
        ((transport_open env addr port h).returned ≡ opened_number (env.resolve h1) h1)
        × ((tcp_open env addr port h).returned ≡ opened_number (env.resolve h1) h1)
  unfolding transport_open tcp_open
  open_lem addr port h =
      let h1 = getaddrinfo (skip_bracket addr) ∷ h in
      (
        open_resolved_returned _ (env.resolve h1) port h1,
        open_resolved_returned _ (env.resolve h1) port h1,
      )
