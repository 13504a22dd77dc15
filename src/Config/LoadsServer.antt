-- ===== src/Config/LoadsServer.antt =====
-- The parts of a document that states a configuration, which are loaded.
use factory_thing.Base.{ℕ, ◌<◌, ◌≡◌, refl, some, arith}
use factory_thing.CString.Defs.{Bytes, lit, strlen}
use factory_thing.Json.{JsonLib}
use factory_thing.Config.Defs.{Configuration}
use factory_thing.Config.Bounds.{FitsArrays}
use factory_thing.Config.Load.{
  go, copy, member, text, load_device, load_opcua, load_mqtt, load_amqp, load_tcp, load_server,
  System,
}
use factory_thing.Config.Meaning.{HasText, In, ServerIs}

pub copy_lem : (size : ℕ) (s : Bytes) → strlen s < size → copy size s ≡ go s
unfolding copy
copy_lem size s h = ground arith

module _ (J : JsonLib) (os : System) where
  member_lem :
      (p v : J.Ptr) (key : Bytes) → J.object_get_ex p key ≡ some v → member J os p key ≡ go v
  unfolding member
  member_lem p v key e = rw (e, member) refl

  text_lem :
      (size : ℕ) (p : J.Ptr) (key s : Bytes)
      → HasText J p key s
      → strlen s < size
      → text J os size p key ≡ go s
  unfolding text
  text_lem size p key s (v, e, e1) h = rw (member_lem p v key e, e1) (copy_lem size s h)

  -- The members of "server-configuration".
  abbrev pub with_server : Configuration → Configuration → Configuration
  with_server c c0 = record c0 {
    ua_server_address = c.ua_server_address;
    ua_publish_interval_usecs = c.ua_publish_interval_usecs;
    asyc_request_supported = c.asyc_request_supported;
    method = c.method;
    mqtt_enable = c.mqtt_enable;
    mqtt_brocker_ip = c.mqtt_brocker_ip;
    mqtt_brocker_port = c.mqtt_brocker_port;
    topic_base = c.topic_base;
    amqp_enable = c.amqp_enable;
    amqp_ip = c.amqp_ip;
    amqp_port = c.amqp_port;
    amqp_topic_base = c.amqp_topic_base;
    tcp_brocker_ip = c.tcp_brocker_ip;
    tcp_brocker_port = c.tcp_brocker_port;
    tcp_sample_interval_us = c.tcp_sample_interval_us;
    singleshot = c.singleshot;
    tcp_enable = c.tcp_enable;
  }

  load_opcua_lem :
      (c c0 : Configuration) (o : J.Ptr)
      → FitsArrays c
      → ServerIs J c o
      → load_opcua J os o c0
        ≡ go (record c0 {
          ua_server_address = c.ua_server_address;
          ua_publish_interval_usecs = c.ua_publish_interval_usecs;
          asyc_request_supported = c.asyc_request_supported;
          method = c.method;
        })
  unfolding load_opcua
  load_opcua_lem c c0 o fits states =
      let (p, e, (url, (v1, f1, g1), (v2, f2, g2), m)) = states.opcua in
      rw
        (
          member_lem o p _ e,
          text_lem 128 p _ _ url fits.ua_server_address,
          member_lem p v1 _ f1,
          member_lem p v2 _ f2,
          text_lem 32 p _ _ m fits.method,
          g1,
          g2,
        )
        refl

  load_mqtt_lem :
      (c c0 : Configuration) (o : J.Ptr)
      → FitsArrays c
      → ServerIs J c o
      → load_mqtt J os o c0
        ≡ go (record c0 {
          mqtt_enable = c.mqtt_enable;
          mqtt_brocker_ip = c.mqtt_brocker_ip;
          mqtt_brocker_port = c.mqtt_brocker_port;
          topic_base = c.topic_base;
        })
  unfolding load_mqtt
  load_mqtt_lem c c0 o fits states =
      let (p, e, ((v1, f1, g1), ip, (v2, f2, g2), base)) = states.mqtt_broker in
      rw
        (
          member_lem o p _ e,
          member_lem p v1 _ f1,
          text_lem 128 p _ _ ip fits.mqtt_brocker_ip,
          member_lem p v2 _ f2,
          text_lem 32 p _ _ base fits.topic_base,
          g1,
          g2,
        )
        refl

  load_amqp_lem :
      (c c0 : Configuration) (o : J.Ptr)
      → FitsArrays c
      → ServerIs J c o
      → load_amqp J os o c0
        ≡ go (record c0 {
          amqp_enable = c.amqp_enable;
          amqp_ip = c.amqp_ip;
          amqp_port = c.amqp_port;
          amqp_topic_base = c.amqp_topic_base;
        })
  unfolding load_amqp
  load_amqp_lem c c0 o fits states =
      let (p, e, ((v1, f1, g1), ip, (v2, f2, g2), base)) = states.amqp_broker in
      rw
        (
          member_lem o p _ e,
          member_lem p v1 _ f1,
          text_lem 128 p _ _ ip fits.amqp_ip,
          member_lem p v2 _ f2,
          text_lem 32 p _ _ base fits.amqp_topic_base,
          g1,
          g2,
        )
        refl

  load_tcp_lem :
      (c c0 : Configuration) (o : J.Ptr)
      → FitsArrays c
      → ServerIs J c o
      → load_tcp J os o c0
        ≡ go (record c0 {
          tcp_brocker_ip = c.tcp_brocker_ip;
          tcp_brocker_port = c.tcp_brocker_port;
          tcp_sample_interval_us = c.tcp_sample_interval_us;
          singleshot = c.singleshot;
          tcp_enable = c.tcp_enable;
        })
  unfolding load_tcp
  load_tcp_lem c c0 o fits states =
      let (p, e, (ip, (v1, f1, g1), (v2, f2, g2), (v3, f3, g3), (v4, f4, g4))) =
        states.tcp_server in
      rw
        (
          member_lem o p _ e,
          text_lem 128 p _ _ ip fits.tcp_brocker_ip,
          member_lem p v1 _ f1,
          member_lem p v2 _ f2,
          member_lem p v3 _ f3,
          member_lem p v4 _ f4,
          g1,
          g2,
          g3,
          g4,
        )
        refl

  pub load_server_lem :
      (c c0 : Configuration) (o : J.Ptr)
      → FitsArrays c
      → ServerIs J c o
      → load_server J os o c0 ≡ go (with_server c c0)
  unfolding load_server
  load_server_lem c c0 o fits states =
      rw
        (
          load_opcua_lem c c0 o fits states,
          load_mqtt_lem c _ o fits states,
          load_amqp_lem c _ o fits states,
          load_tcp_lem c _ o fits states,
        )
        refl

  pub load_device_lem :
      (c c0 : Configuration) (o : J.Ptr)
      → strlen c.device_id < 64
      → In J o (lit "Device") (λ d. HasText J d (lit "deviceID") c.device_id)
      → load_device J os o c0 ≡ go (record c0 { device_id = c.device_id })
  unfolding load_device
  load_device_lem c c0 o fits (d, e, id) = rw (member_lem o d _ e, text_lem 64 d _ _ id fits) refl
