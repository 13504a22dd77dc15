-- ===== src/Config/Required.antt =====
-- The members of "server-configuration" that `load` insists on.
use factory_thing.Base.{◌≡◌, ◌≢◌, refl, Option, none, some, List, [], ◌∷◌, arith}
use factory_thing.CString.Defs.{Bytes, lit}
use factory_thing.Json.{JsonLib}
use factory_thing.Config.Defs.{Configuration}
use factory_thing.Config.Load.{
  Outcome, go, refused, faulted, ◌>>=◌, System, load_opcua, load_mqtt, load_amqp, load_tcp,
  load_server,
}
use factory_thing.Config.Nodes.{Given}
use factory_thing.Config.Bounds.{Outcome-inv}

pub bind-ne-refused {ℓ κ} :
    {A : Type ℓ} {B : Type κ} (m : Outcome A) (f : A → Outcome B)
    → m ≢ refused
    → ((a : A) → f a ≢ refused)
    → (m >>= f) ≢ refused
bind-ne-refused (go a) f h k = k a
bind-ne-refused refused f h k = absurd (h refl)
bind-ne-refused (faulted e) f h k = λ e. cc

module _ (J : JsonLib) where
  abbrev pub HasKeys : J.Ptr → List Bytes → Type 0
  HasKeys p [] = Unit
  HasKeys p (key ∷ keys) = Given (J.object_get_ex p key) × HasKeys p keys

  -- The member is there, and has the members listed.
  abbrev pub HasMember : Option J.Ptr → List Bytes → Type 0
  HasMember none keys = ⊥
  HasMember (some p) keys = HasKeys p keys

  abbrev pub HasSection : J.Ptr → Bytes → List Bytes → Type 0
  HasSection o name keys = HasMember (J.object_get_ex o name) keys

  -- The four objects, each with what is read of it.
  pub record Required (o : J.Ptr) : Type 0 where
    pub opcua : HasSection o (lit "opcuaServer") (
        lit "EndpointURL"
        ∷ lit "publishIntervalUs"
        ∷ lit "asycRequestSupported"
        ∷ lit "method"
        ∷ [])
    pub mqtt :
        HasSection o
          (lit "mqttBrocker")
          (lit "enable" ∷ lit "ip" ∷ lit "port" ∷ lit "topicBase" ∷ [])
    pub amqp :
        HasSection o
          (lit "amqpRabbit")
          (lit "enable" ∷ lit "ip" ∷ lit "port" ∷ lit "topicBase" ∷ [])
    pub tcp :
        HasSection o
          (lit "tcpSever")
          (lit "ip" ∷ lit "port" ∷ lit "sampleIntervalUs" ∷ lit "singleshot" ∷ lit "enable" ∷ [])

module _ (J : JsonLib) (os : System) (o : J.Ptr) where
  opcua_needs :
      (c : Configuration) {c' : Configuration}
      → load_opcua J os o c ≡ go c'
      → HasSection J o (lit "opcuaServer") (
          lit "EndpointURL"
          ∷ lit "publishIntervalUs"
          ∷ lit "asycRequestSupported"
          ∷ lit "method"
          ∷ [])
  unfolding load_opcua
  opcua_needs c h = ground arith

  mqtt_needs :
      (c : Configuration) {c' : Configuration}
      → load_mqtt J os o c ≡ go c'
      → HasSection J o
          (lit "mqttBrocker")
          (lit "enable" ∷ lit "ip" ∷ lit "port" ∷ lit "topicBase" ∷ [])
  unfolding load_mqtt
  mqtt_needs c h = ground arith

  amqp_needs :
      (c : Configuration) {c' : Configuration}
      → load_amqp J os o c ≡ go c'
      → HasSection J o
          (lit "amqpRabbit")
          (lit "enable" ∷ lit "ip" ∷ lit "port" ∷ lit "topicBase" ∷ [])
  unfolding load_amqp
  amqp_needs c h = ground arith

  tcp_needs :
      (c : Configuration) {c' : Configuration}
      → load_tcp J os o c ≡ go c'
      → HasSection J o
          (lit "tcpSever")
          (lit "ip" ∷ lit "port" ∷ lit "sampleIntervalUs" ∷ lit "singleshot" ∷ lit "enable" ∷ [])
  unfolding load_tcp
  tcp_needs c h = ground arith

  opcua_enough : Required J o → (c : Configuration) → load_opcua J os o c ≢ refused
  unfolding load_opcua
  opcua_enough r c h = ground arith

  mqtt_enough : Required J o → (c : Configuration) → load_mqtt J os o c ≢ refused
  unfolding load_mqtt
  mqtt_enough r c h = ground arith

  amqp_enough : Required J o → (c : Configuration) → load_amqp J os o c ≢ refused
  unfolding load_amqp
  amqp_enough r c h = ground arith

  tcp_enough : Required J o → (c : Configuration) → load_tcp J os o c ≢ refused
  unfolding load_tcp
  tcp_enough r c h = ground arith

  load_server-needs :
      (c : Configuration) {c' : Configuration} → load_server J os o c ≡ go c' → Required J o
  unfolding load_server
  load_server-needs c h =
      let (c3, h3, e4) =
        Outcome-inv (load_opcua J os o c >>= load_mqtt J os o >>= load_amqp J os o) _ h in
      let (c2, h2, e3) = Outcome-inv (load_opcua J os o c >>= load_mqtt J os o) _ h3 in
      let (c1, e1, e2) = Outcome-inv (load_opcua J os o c) _ h2 in
      record {
        opcua = opcua_needs c e1;
        mqtt = mqtt_needs c1 e2;
        amqp = amqp_needs c2 e3;
        tcp = tcp_needs c3 e4;
      }

  load_server-enough : Required J o → (c : Configuration) → load_server J os o c ≢ refused
  unfolding load_server
  load_server-enough r c =
      bind-ne-refused _ _
        (bind-ne-refused _ _
          (bind-ne-refused (load_opcua J os o c) (load_mqtt J os o) (opcua_enough r c)
            (mqtt_enough r))
          (amqp_enough r))
        (tcp_enough r)

  -- Loading "server-configuration" succeeds only if its four objects are there with all their
  -- members, the one for AMQP included; and where they are there, it never returns -1.
  pub load_server-members :
      (c : Configuration)
      → ((c' : Configuration) → load_server J os o c ≡ go c' → Required J o)
        × (Required J o → load_server J os o c ≢ refused)
  load_server-members c = (λ c' h. load_server-needs c h, λ r. load_server-enough r c)
