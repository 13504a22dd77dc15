-- ===== src/Monitor/Tests.antt =====
-- A group of three nodes, its values, and the theorems at them.
use factory_thing.Base.{
  ℕ, zero, suc, ◌+◌, ◌*◌, ◌≤◌, ◌<◌, ◌≡◌, refl, true, Option, some, [], ◌∷◌, ◌++◌, arith, ok,
}
use factory_thing.CString.Defs.{Bytes, lit, decimal, strncmp_is_zero, decimal_fuel}
use factory_thing.Int.{pos, negsuc}
use factory_thing.Config.Defs.{
  Configuration, zero_configuration, Group, unset_group, Node, unset_node, Map,
}
use factory_thing.Config.Modes.{get_payload_format}
use factory_thing.Monitor.Value.{
  Value, half64, int32, uint32, string, unsupported, UaString, new_int, Members, print_int, sprintf,
  callback_switch, add, convert_string, convert,
}
use factory_thing.Monitor.Publish.{over_mqtt, over_tcp, publish}
use factory_thing.Monitor.Round.{
  Gathered, print_unsigned, joined, poll_node, poll_nodes, poll_message, poll_round,
}
use factory_thing.Monitor.Epoch.{epoch, long, epoch_lem}
use factory_thing.Monitor.Pairs.{Returns}
use factory_thing.Monitor.Rounds.{PollReady, round_of, poll_round_lem}

-- The names of the members stand for the JSON text.
abbrev names : Members ℕ → Bytes
names [] = []
names ((key, _) ∷ ms) = key ++ names ms

abbrev c : Configuration
c = record zero_configuration { topic_base = lit "/base"; device_id = lit "dev" }

abbrev node : Bytes → Node
node alias = record unset_node { topic = some alias; alias = some alias }

abbrev nodes : Map Node
nodes = (0, node (lit "a")) ∷ (1, node (lit "b")) ∷ (2, node (lit "c")) ∷ []

abbrev g : Group
g = record unset_group {
  topic = some (lit "g");
  format = some (lit "kv");
  mqtt = some true;
  tcp = some true;
  nodes = nodes;
}

abbrev hello : UaString
hello = record { length = 2; printed = lit "hi" }

-- The first node is a number, the second has a type that is not supported, the third is a string.
abbrev read : ℕ → Option (Value ℕ)
read k = elim k [
  | zero ↦ some (int32 (negsuc 4))
  | suc j ↦ elim j [ zero ↦ some unsupported | suc _ ↦ some (string hello) ]
]

abbrev start : Gathered ℕ
start = record { members = []; kvs = [] }

abbrev sent : Bytes
sent = lit "a=-5, c=\"hi\", time=77"

round_test :
    poll_round decimal names c g (pos 77) read
    ≡ ok (over_mqtt (lit "/base/dev/g") sent ∷ over_tcp sent ∷ [])
unfolding poll_round poll_message publish joined print_unsigned get_payload_format strncmp_is_zero
    sprintf poll_nodes poll_node convert add convert_string print_int decimal decimal_fuel
round_test = refl

-- A UInt32 of 2^32 - 1 is published as -1, since it is converted to a signed number.
uint32_test :
    convert decimal callback_switch (some (lit "n")) (uint32 0xffff_ffff)
    ≡ some (ok (record { members = (lit "n", new_int (negsuc 0)) ∷ []; text = lit "-1" }))
unfolding convert add sprintf print_int decimal decimal_fuel
uint32_test = refl

poll_ready : PollReady c g
poll_ready = record {
  group_topic = lit "g";
  format = lit "kv";
  mqtt = true;
  tcp = true;
  group_topic_given = refl;
  format_given = refl;
  mqtt_given = refl;
  tcp_given = refl;
  topic_fits = ground arith;
}

poll_round_lem_example :
    poll_round decimal names c g (pos 77) read
    ≡ ok (round_of decimal names c g (pos 77) poll_ready read)
unfolding print_int decimal decimal_fuel
poll_round_lem_example =
    poll_round_lem decimal names c g (pos 77) poll_ready read (ground arith)
      (ground arith, (_, (ground arith, _)))

-- Half a microsecond is rounded up.
epoch_test : epoch (some (3, 999_999_500)) ≡ ok (pos 4_000_000)
unfolding epoch long
epoch_test = refl

epoch_lem_example :
    (micros : ℕ) × (epoch (some (3, 999_999_500)) ≡ ok (pos micros))
    × (micros * 1000 ≤ 3 * 1_000_000_000 + 999_999_500 + 500)
    × (3 * 1_000_000_000 + 999_999_500 < micros * 1000 + 500)
    × (micros < half64)
epoch_lem_example = epoch_lem 3 999_999_500 (ground arith) (ground arith)
