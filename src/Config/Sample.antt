-- ===== src/Config/Sample.antt =====
-- JSON values as an instance of the interface of json-c, and a small document.
use factory_thing.Base.{
  ℕ, zero, suc, Bool, true, false, Option, none, some, List, [], ◌∷◌, if◌then◌else◌,
}
use factory_thing.Int.{ℤ, pos}
use factory_thing.CString.Defs.{Bytes, lit, equal}
use factory_thing.Json.{
  JsonType, null_type, boolean_type, int_type, object_type, array_type, string_type, JsonLib,
}
use factory_thing.Config.Defs.{Node, unset_node, Map, Group, unset_group, zero_configuration}
use factory_thing.Config.Load.{System, Loaded}

-- JSON values, and json-c's view of them.
mutual
  pub data Doc : Type 0 where
    null : Doc
    bool : Bool → Doc
    num : ℤ → Doc
    str : Bytes → Doc
    obj : Members → Doc
    arr : Elements → Doc

  pub data Members : Type 0 where
    end : Members
    field : Bytes → Doc → Members → Members

  pub data Elements : Type 0 where
    nil : Elements
    cons : Doc → Elements → Elements

abbrev type_of : Doc → JsonType
type_of null = null_type
type_of (bool b) = boolean_type
type_of (num z) = int_type
type_of (str s) = string_type
type_of (obj m) = object_type
type_of (arr e) = array_type

abbrev members_of : Members → List (Bytes × Doc)
members_of end = []
members_of (field k d m) = (k, d) ∷ members_of m

abbrev pub entries_of : Doc → List (Bytes × Doc)
entries_of (obj m) = members_of m
entries_of _ = []

abbrev elements_of : Elements → List Doc
elements_of nil = []
elements_of (cons d e) = d ∷ elements_of e

abbrev pub array_of : Doc → List Doc
array_of (arr e) = elements_of e
array_of _ = []

abbrev pub count : List Doc → ℕ
count [] = 0
count (d ∷ ds) = suc (count ds)

abbrev element : List Doc → ℕ → Doc
element [] i = null
element (d ∷ ds) zero = d
element (d ∷ ds) (suc i) = element ds i

abbrev text_of : Doc → Option Bytes
text_of null = none
text_of (str s) = some s
text_of _ = some []

abbrev int_of : Doc → ℤ
int_of (num z) = z
int_of _ = pos 0

abbrev bool_of : Doc → Bool
bool_of (bool b) = b
bool_of _ = false

abbrev find : List (Bytes × Doc) → Bytes → Option Doc
find [] key = none
find ((k, d) ∷ m) key = if equal k key then some d else find m key

-- Every file holds the document `doc`, if its text is "{}".
abbrev pub json_of : Doc → JsonLib
json_of doc = record {
  Ptr = Doc;
  null = null;
  parse = λ s. if equal s (lit "{}") then doc else null;
  get_type = type_of;
  entries = entries_of;
  array_length = λ d. count (array_of d);
  array_get_idx = λ d. element (array_of d);
  get_string = text_of;
  get_int = int_of;
  get_boolean = bool_of;
  object_get_ex = λ d. find (entries_of d);
}

abbrev one_node : Doc
one_node = obj (
    field (lit "id") (str (lit "ns=2;i=5"))
      (field (lit "topic") (str (lit "temp")) (field (lit "alias") (str []) end)))

abbrev no_alias_node : Doc
no_alias_node =
    obj (field (lit "id") (str (lit "ns=2;i=6")) (field (lit "topic") (str (lit "rpm")) end))

abbrev pub node_array : Doc
node_array = arr (cons one_node (cons no_alias_node nil))

abbrev group_fields : Members
group_fields = field (lit "name") (str (lit "g")) (
    field (lit "method") (str (lit "poll")) (
      field (lit "intervalUSec") (num (pos 1000)) (
        field (lit "mqtt") (bool true) (
          field (lit "enable") (bool true)
            (field (lit "tcp") (bool false) (field (lit "nodes") node_array end))))))

abbrev pub group_doc : Doc
group_doc = obj group_fields

abbrev broker_doc : Doc
broker_doc = obj (
    field (lit "enable") (bool true) (
      field (lit "ip") (str (lit "10.0.0.1"))
        (field (lit "port") (num (pos 1883)) (field (lit "topicBase") (str (lit "t")) end))))

abbrev pub server_doc : Doc
server_doc = obj (
    field (lit "opcuaServer")
      (obj (
        field (lit "EndpointURL") (str (lit "opc.tcp://h")) (
          field (lit "publishIntervalUs") (num (pos 100)) (
            field (lit "asycRequestSupported") (bool false)
              (field (lit "method") (str (lit "poll")) end)))))
      (field (lit "mqttBrocker") broker_doc (
        field (lit "amqpRabbit") broker_doc (
          field (lit "tcpSever")
            (obj (
              field (lit "ip") (str (lit "10.0.0.2")) (
                field (lit "port") (num (pos 5555)) (
                  field (lit "sampleIntervalUs") (num (pos 100)) (
                    field (lit "singleshot") (bool true) (field (lit "enable") (bool true) end))))))
            end))))

abbrev with_group : Doc → Doc
with_group group = obj (
    field (lit "server-configuration") server_doc
      (field (lit "node-map") (arr (cons group nil)) end))

abbrev pub document : Doc
document = with_group group_doc

abbrev pub J : JsonLib
J = json_of document

abbrev pub os : System
os = record {
  exe = lit "/opt/bridge";
  fopen = λ path. if equal path (lit "/etc/c.json") then some (lit "{}") else some (lit "oops");
}

abbrev pub start : Loaded
start = record { configuration = zero_configuration; groups = [] }

abbrev pub argv : List Bytes
argv = lit "bridge" ∷ lit "-c" ∷ lit "/etc/c.json" ∷ []

abbrev pub node0 : Node
node0 = record unset_node {
  id = some (lit "ns=2;i=5");
  topic = some (lit "temp");
  alias = some (lit "temp");
}

abbrev pub node1 : Node
node1 = record unset_node {
  id = some (lit "ns=2;i=6");
  topic = some (lit "rpm");
  alias = some (lit "temp");
}

abbrev pub both_nodes : Map Node
both_nodes = (0, node0) ∷ (1, node1) ∷ []

abbrev pub group0 : Group
group0 = record unset_group {
  name = some (lit "g");
  method = some (lit "poll");
  interval_usec = some (pos 1000);
  mqtt = some true;
  tcp = some false;
  enable = some true;
  nodes = both_nodes;
}

abbrev pub expected : Loaded
expected = record {
  configuration = record zero_configuration {
    config_file = lit "/etc/c.json";
    config_folder = lit "/opt";
    ua_server_address = lit "opc.tcp://h";
    ua_publish_interval_usecs = pos 100;
    method = lit "poll";
    mqtt_enable = true;
    mqtt_brocker_ip = lit "10.0.0.1";
    mqtt_brocker_port = pos 1883;
    topic_base = lit "t";
    tcp_enable = true;
    tcp_brocker_ip = lit "10.0.0.2";
    tcp_brocker_port = pos 5555;
    tcp_sample_interval_us = pos 100;
    singleshot = true;
    amqp_enable = true;
    amqp_ip = lit "10.0.0.1";
    amqp_port = pos 1883;
    amqp_topic_base = lit "t";
  };
  groups = (0, group0) ∷ [];
}
