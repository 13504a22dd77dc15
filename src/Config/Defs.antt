-- ===== src/Config/Defs.antt =====
-- The types of client-config.h and client-nodemap.h, and std::map.
use factory_thing.Base.{ℕ, Bool, false, Option, none, List, [], ◌∷◌, ltb, ◌==◌, if◌then◌else◌}
use factory_thing.CString.Defs.{Bytes}
use factory_thing.Int.{ℤ, pos}
use factory_thing.NodeId.Defs.{UaNodeId, unset_id}

-- A `char *` or a number that was never set is `none`. The member `parent` is the group that holds
-- the node, and has no field here.
pub record Node : Type 0 where
  pub id : Option Bytes
  pub topic : Option Bytes
  pub alias : Option Bytes
  pub ua : UaNodeId

abbrev pub unset_node : Node
unset_node = record { id = none; topic = none; alias = none; ua = unset_id }

-- std::map<int, V>, in the order of its keys.
abbrev pub Map {ℓ} : Type ℓ → Type ℓ
Map V = List (ℕ × V)

-- map::insert, which leaves the value of a key that is there.
unfoldable pub insert {ℓ} : {V : Type ℓ} → ℕ → V → Map V → Map V
insert k v [] = (k, v) ∷ []
insert k v ((j, w) ∷ m) =
    let rest = insert k v m in
    if ltb k j then (k, v) ∷ (j, w) ∷ m else if k == j then (j, w) ∷ m else (j, w) ∷ rest

pub record Group : Type 0 where
  pub name : Option Bytes
  pub method : Option Bytes
  pub topic : Option Bytes
  pub format : Option Bytes
  pub interval_usec : Option ℤ
  pub mqtt : Option Bool
  pub amqp : Option Bool
  pub tcp : Option Bool
  pub enable : Option Bool
  pub nodes : Map Node

-- `Group g;`
abbrev pub unset_group : Group
unset_group = record {
  name = none;
  method = none;
  topic = none;
  format = none;
  interval_usec = none;
  mqtt = none;
  amqp = none;
  tcp = none;
  enable = none;
  nodes = [];
}

-- UAMQ_Configuration, but for `client`, which the main program sets.
pub record Configuration : Type 0 where
  pub config_file : Bytes
  pub config_folder : Bytes
  pub device_id : Bytes
  pub ua_server_address : Bytes
  pub ua_publish_interval_usecs : ℤ
  pub asyc_request_supported : Bool
  pub method : Bytes
  pub mqtt_enable : Bool
  pub mqtt_brocker_ip : Bytes
  pub mqtt_brocker_port : ℤ
  pub topic_base : Bytes
  pub tcp_enable : Bool
  pub tcp_brocker_ip : Bytes
  pub tcp_brocker_port : ℤ
  pub tcp_sample_interval_us : ℤ
  pub singleshot : Bool
  pub amqp_enable : Bool
  pub amqp_ip : Bytes
  pub amqp_port : ℤ
  pub amqp_topic_base : Bytes

-- The zeroed global `g_Configutation`.
abbrev pub zero_configuration : Configuration
zero_configuration = record {
  config_file = [];
  config_folder = [];
  device_id = [];
  ua_server_address = [];
  ua_publish_interval_usecs = pos 0;
  asyc_request_supported = false;
  method = [];
  mqtt_enable = false;
  mqtt_brocker_ip = [];
  mqtt_brocker_port = pos 0;
  topic_base = [];
  tcp_enable = false;
  tcp_brocker_ip = [];
  tcp_brocker_port = pos 0;
  tcp_sample_interval_us = pos 0;
  singleshot = false;
  amqp_enable = false;
  amqp_ip = [];
  amqp_port = pos 0;
  amqp_topic_base = [];
}
