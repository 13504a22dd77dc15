-- ===== src/Client/PollTests.antt =====
-- A thread that loses its connection in the first round.
use factory_thing.Base.{
  ℕ, ◌≡◌, refl, true, none, some, List, [], ◌∷◌, ◌++◌, ltb, leb, length, if◌then◌else◌, ok,
}
use factory_thing.CString.Defs.{Bytes, lit, decimal, decimal_fuel, strncmp_is_zero}
use factory_thing.Int.{pos, negsuc}
use factory_thing.Config.Defs.{zero_configuration, Group, unset_group, Node, unset_node}
use factory_thing.Config.Modes.{get_payload_format}
use factory_thing.Monitor.Value.{int32, Members, sprintf, add, convert, print_int}
use factory_thing.Monitor.Publish.{Message, over_mqtt, over_tcp, publish}
use factory_thing.Monitor.Round.{joined, print_unsigned, poll_node, poll_message}
use factory_thing.Client.Defs.{
  get_endpoints, connect, service_browse, for_each_child_node, read_value_attribute, usleep, new,
  ClientState, use_client, delete_client, opcua_server_connect, opcua_server_browse, attempt,
  reconnect,
}
use factory_thing.Client.Poll.{Device, live_value, live_node, live_nodes, live_round, live_group}

abbrev names : Members ℕ → Bytes
names [] = []
names ((key, _) ∷ ms) = key ++ names ms

abbrev node : Bytes → Node
node alias = record unset_node { topic = some alias; alias = some alias }

abbrev g : Group
g = record unset_group {
  topic = some (lit "g");
  format = some (lit "kv");
  mqtt = some true;
  tcp = some true;
  nodes = (0, node (lit "a")) ∷ (1, node (lit "b")) ∷ [];
}

-- The first read fails.
abbrev w : Device ℕ
w = record {
  server = record { status = λ calls. 0; be_stop = λ calls. leb 12 (length calls) };
  read = λ calls. if ltb (length calls) 3 then none else some (int32 (negsuc 4));
  time = λ calls. pos 77;
}

abbrev s : ClientState
s = record { calls = new ∷ []; live = true }

abbrev s1 : ClientState
s1 = record {
  calls =
      usleep ∷ read_value_attribute ∷ read_value_attribute ∷ usleep ∷ read_value_attribute
      ∷ for_each_child_node ∷ service_browse ∷ connect ∷ get_endpoints ∷ usleep
      ∷ read_value_attribute ∷ new ∷ [];
  live = true;
}

-- The first node is left out of the first round.
abbrev messages : List Message
messages =
    over_mqtt (lit "//g") (lit "b=-5, time=77")
    ∷ over_tcp (lit "b=-5, time=77")
    ∷ over_mqtt (lit "//g") (lit "a=-5, b=-5, time=77")
    ∷ over_tcp (lit "a=-5, b=-5, time=77")
    ∷ []

lost_test : live_group decimal names zero_configuration g w 13 s ≡ ok (some (messages, s1))
unfolding live_group live_round live_nodes live_node live_value poll_node poll_message publish
    joined print_unsigned get_payload_format strncmp_is_zero sprintf convert add print_int decimal
    decimal_fuel use_client delete_client opcua_server_connect opcua_server_browse attempt reconnect
lost_test = refl
