-- ===== src/Config/Meaning.antt =====
-- What a configuration file says, apart from how it is read: the settings, the configuration and the
-- groups that they stand for, and the JSON documents that state them.
use factory_thing.Base.{ℕ, ◌+◌, ◌≡◌, Bool, some, List, [], ◌∷◌, ◌++◌, map, length, get_elem?}
use factory_thing.CString.Defs.{Bytes, lit}
use factory_thing.Int.{ℤ}
use factory_thing.Json.{JsonLib, object_type, array_type}
use factory_thing.Config.Defs.{Node, unset_node, Map, Group, unset_group, Configuration}

-- The members of a node, in this order.
pub record NodeSettings : Type 0 where
  pub id : Bytes
  pub topic : Bytes
  pub alias : Bytes

-- A member of a group, other than its nodes.
pub data Setting : Type 0 where
  name_is method_is topic_is format_is : Bytes → Setting
  interval_usec_is : ℤ → Setting
  mqtt_is amqp_is tcp_is enable_is : Bool → Setting

-- The members of a group, in any order; a later one has the last word.
pub record GroupSettings : Type 0 where
  pub before : List Setting
  pub nodes : List NodeSettings
  pub after : List Setting

-- An empty alias stands for the topic.
abbrev pub alias_of : Bytes → Bytes → Bytes
alias_of topic [] = topic
alias_of topic (c ∷ alias) = c ∷ alias

abbrev pub node_of : NodeSettings → Node
node_of s = record unset_node {
  id = some s.id;
  topic = some s.topic;
  alias = some (alias_of s.topic s.alias);
}

abbrev pub set : Setting → Group → Group
set (name_is s) g = record g { name = some s }
set (method_is s) g = record g { method = some s }
set (topic_is s) g = record g { topic = some s }
set (format_is s) g = record g { format = some s }
set (interval_usec_is z) g = record g { interval_usec = some z }
set (mqtt_is b) g = record g { mqtt = some b }
set (amqp_is b) g = record g { amqp = some b }
set (tcp_is b) g = record g { tcp = some b }
set (enable_is b) g = record g { enable = some b }

abbrev pub set_all : List Setting → Group → Group
set_all [] g = g
set_all (f ∷ fs) g = set_all fs (set f g)

-- From the number `i` on.
abbrev pub numbered {ℓ} : {A : Type ℓ} → ℕ → List A → Map A
numbered i [] = []
numbered i (x ∷ xs) = (i, x) ∷ numbered (i + 1) xs

abbrev pub group_of : GroupSettings → Group
group_of s =
    set_all s.after
      (record (set_all s.before unset_group) { nodes = numbered 0 (map node_of s.nodes) })

module _ (J : JsonLib) where
  -- A member of an object, by its key.
  abbrev pub HasText : J.Ptr → Bytes → Bytes → Type 0
  HasText p key s = (v : J.Ptr) × (J.object_get_ex p key ≡ some v) × (J.get_string v ≡ some s)

  abbrev pub HasInt : J.Ptr → Bytes → ℤ → Type 0
  HasInt p key z = (v : J.Ptr) × (J.object_get_ex p key ≡ some v) × (J.get_int v ≡ z)

  abbrev pub HasFlag : J.Ptr → Bytes → Bool → Type 0
  HasFlag p key b = (v : J.Ptr) × (J.object_get_ex p key ≡ some v) × (J.get_boolean v ≡ b)

  -- The object behind a key.
  abbrev pub In : J.Ptr → Bytes → (J.Ptr → Type 0) → Type 0
  In p key P = (o : J.Ptr) × (J.object_get_ex p key ≡ some o) × P o

  -- The elements of an array, one by one.
  abbrev pub ArrayOf : {A : Type 0} → (A → J.Ptr → Type 0) → List A → J.Ptr → Type 0
  ArrayOf {A = A} P xs p =
      (J.array_length p ≡ length xs)
      × ((i : ℕ) (x : A) → get_elem? xs i ≡ some x → P x (J.array_get_idx p i))

  abbrev pub IsText : Bytes → Bytes → (Bytes × J.Ptr) → Type 0
  IsText word s (key, v) = (key ≡ word) × (J.get_string v ≡ some s)

  abbrev pub IsFlag : Bytes → Bool → (Bytes × J.Ptr) → Type 0
  IsFlag word b (key, v) = (key ≡ word) × (J.get_boolean v ≡ b)

  abbrev pub SettingIs : Setting → (Bytes × J.Ptr) → Type 0
  SettingIs (name_is s) m = IsText (lit "name") s m
  SettingIs (method_is s) m = IsText (lit "method") s m
  SettingIs (topic_is s) m = IsText (lit "topic") s m
  SettingIs (format_is s) m = IsText (lit "format") s m
  SettingIs (interval_usec_is z) (key, v) = (key ≡ lit "intervalUSec") × (J.get_int v ≡ z)
  SettingIs (mqtt_is b) m = IsFlag (lit "mqtt") b m
  SettingIs (amqp_is b) m = IsFlag (lit "amqp") b m
  SettingIs (tcp_is b) m = IsFlag (lit "tcp") b m
  SettingIs (enable_is b) m = IsFlag (lit "enable") b m

  abbrev pub SettingsAre : List Setting → List (Bytes × J.Ptr) → Type 0
  SettingsAre [] [] = Unit
  SettingsAre [] (m ∷ ms) = ⊥
  SettingsAre (f ∷ fs) [] = ⊥
  SettingsAre (f ∷ fs) (m ∷ ms) = SettingIs f m × SettingsAre fs ms

  abbrev pub NodeIs : NodeSettings → J.Ptr → Type 0
  NodeIs s p =
      (J.get_type p ≡ object_type)
      × (v : J.Ptr) × (w : J.Ptr) × (x : J.Ptr) × (J.entries p
          ≡ (lit "id", v) ∷ (lit "topic", w) ∷ (lit "alias", x) ∷ [])
      × (J.get_string v ≡ some s.id)
      × (J.get_string w ≡ some s.topic)
      × (J.get_string x ≡ some s.alias)

  abbrev pub GroupIs : GroupSettings → J.Ptr → Type 0
  GroupIs s p =
      (J.get_type p ≡ object_type)
      × (front : List (Bytes × J.Ptr)) × (back : List (Bytes × J.Ptr)) × (v : J.Ptr) × (J.entries p
          ≡ front ++ ((lit "nodes", v) ∷ back))
      × SettingsAre s.before front
      × SettingsAre s.after back
      × (J.get_type v ≡ array_type)
      × ArrayOf NodeIs s.nodes v

  -- "server-configuration" states these members of a configuration.
  pub record ServerIs (c : Configuration) (o : J.Ptr) : Type 0 where
    pub opcua : In o (lit "opcuaServer") (λ p.
        HasText p (lit "EndpointURL") c.ua_server_address
        × HasInt p (lit "publishIntervalUs") c.ua_publish_interval_usecs
        × HasFlag p (lit "asycRequestSupported") c.asyc_request_supported
        × HasText p (lit "method") c.method)
    pub mqtt_broker : In o (lit "mqttBrocker") (λ p.
        HasFlag p (lit "enable") c.mqtt_enable
        × HasText p (lit "ip") c.mqtt_brocker_ip
        × HasInt p (lit "port") c.mqtt_brocker_port
        × HasText p (lit "topicBase") c.topic_base)
    pub amqp_broker : In o (lit "amqpRabbit") (λ p.
        HasFlag p (lit "enable") c.amqp_enable
        × HasText p (lit "ip") c.amqp_ip
        × HasInt p (lit "port") c.amqp_port
        × HasText p (lit "topicBase") c.amqp_topic_base)
    pub tcp_server : In o (lit "tcpSever") (λ p.
        HasText p (lit "ip") c.tcp_brocker_ip
        × HasInt p (lit "port") c.tcp_brocker_port
        × HasInt p (lit "sampleIntervalUs") c.tcp_sample_interval_us
        × HasFlag p (lit "singleshot") c.singleshot
        × HasFlag p (lit "enable") c.tcp_enable)

  -- A document states all of a configuration, but for its paths, and the groups.
  pub record DocumentIs (c : Configuration) (groups : List GroupSettings) (doc : J.Ptr)
      : Type 0 where
    pub device :
        In doc
          (lit "device-configuration")
          (λ o. In o (lit "Device") (λ d. HasText d (lit "deviceID") c.device_id))
    pub server : In doc (lit "server-configuration") (ServerIs c)
    pub node_map : In doc (lit "node-map") (ArrayOf GroupIs groups)
