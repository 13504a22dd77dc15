-- ===== src/Tcp/Socket.antt =====
-- Which descriptor the publisher writes to.
use factory_thing.Base.{
  Bool, false, true, ◌≡◌, ◌∙◌, refl, ap, List, [], ◌∷◌, Bool-cases, inl, inr, arith,
}
use factory_thing.CString.Defs.{Bytes, strlen}
use factory_thing.Int.{ℤ, pos}
use factory_thing.Config.Defs.{Configuration}
use factory_thing.Net.Defs.{Call, send, close, Env}
use factory_thing.Net.Added.{others, tcp_open-Adds, Adds-others}
use factory_thing.Tcp.Defs.{TcpState, tcp_send_packet_buffer, tcp_publish}

-- The calls for one text, before those already made.
abbrev pub sending : Bool → ℤ → Bytes → List Call → List Call
sending false fd value calls = send fd value (pos (strlen value)) ∷ calls
sending true fd value calls = close fd ∷ send fd value (pos (strlen value)) ∷ calls

-- Those for some texts.
abbrev pub transcript : Bool → ℤ → List Bytes → List Call → List Call
transcript singleshot fd [] calls = calls
transcript singleshot fd (value ∷ values) calls =
    transcript singleshot fd values (sending singleshot fd value calls)

module _ (env : Env) (c : Configuration) where
  -- One publication after another.
  abbrev pub publish_all : List Bytes → TcpState → TcpState
  publish_all [] s = s
  publish_all (value ∷ values) s = publish_all values (tcp_publish env c value s).1

  publish_one :
      (value : Bytes) (s : TcpState)
      → let s1 = (tcp_publish env c value s).1 in
        (s1.sock ≡ s.sock)
        × (others s1.history ≡ sending c.singleshot s.sock value (others s.history))
        × (c.singleshot ≡ false → s1.history ≡ sending false s.sock value s.history)
  unfolding tcp_publish tcp_send_packet_buffer
  publish_one value s = elim (Bool-cases c.singleshot) [
    | inl e ↦ rw e (
      refl,
      Adds-others _ _ (tcp_open-Adds env c.tcp_brocker_ip c.tcp_brocker_port _),
      λ off. absurd (ground arith),
    )
    | inr e ↦ rw e (refl, refl, λ off. refl)
  ]

  -- However many texts are published, each is sent once, in their order, and all of them on the
  -- same number sock. Outside of single shot mode nothing else is called. In single shot mode the
  -- descriptor sock is closed behind each text, and the only other calls are those that open
  -- connections: sock is not set to what they return, so the next text is sent on the number that
  -- was closed, whatever number the new connection has.
  pub publish_all_lem :
      (values : List Bytes) (s : TcpState)
      → let s1 = publish_all values s in
        (s1.sock ≡ s.sock)
        × (others s1.history ≡ transcript c.singleshot s.sock values (others s.history))
        × (c.singleshot ≡ false → s1.history ≡ transcript false s.sock values s.history)
  publish_all_lem [] s = (refl, refl, λ off. refl)
  publish_all_lem (value ∷ values) s =
      let s1 = (tcp_publish env c value s).1 in
      let (same, calls, plain) = publish_one value s in
      let (kept, later, plainly) = publish_all_lem values s1 in
      (
        kept ∙ same,
        later
            ∙ ap (λ fd. transcript c.singleshot fd values (others s1.history)) same
            ∙ ap (transcript c.singleshot s.sock values) calls,
        λ off.
            plainly off
            ∙ ap (λ fd. transcript false fd values s1.history) same
            ∙ ap (transcript false s.sock values) (plain off),
      )
