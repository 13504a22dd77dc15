-- ===== src/Monitor/SharedTests.antt =====
-- Two polling threads that share the buffer for the topic, and the theorem at them.
use factory_thing.Base.{ℕ, zero, suc, ◌≡◌, refl, true, false, some, List, [], ◌∷◌, ok}
use factory_thing.CString.Defs.{Bytes, lit, decimal, decimal_fuel, strncmp_is_zero}
use factory_thing.Int.{pos}
use factory_thing.Config.Defs.{Configuration, zero_configuration, Group, unset_group}
use factory_thing.Config.Modes.{get_payload_format}
use factory_thing.Monitor.Value.{new_int64, Members, sprintf}
use factory_thing.Monitor.Publish.{over_mqtt, publish}
use factory_thing.Monitor.Round.{joined, print_unsigned}
use factory_thing.Monitor.Shared.{
  Gotten, Event, formats, publishes, format_topic, publish_under, interleaved,
}

abbrev c : Configuration
c = record zero_configuration { topic_base = lit "t"; device_id = lit "d" }

abbrev to_json : Members ℕ → Bytes
to_json ms = lit "{}"

abbrev group : Bytes → Group
group topic = record unset_group {
  topic = some topic;
  format = some (lit "json");
  mqtt = some true;
  tcp = some false;
}

abbrev gotten : Bytes → Gotten ℕ
gotten topic = record {
  group = group topic;
  time = pos 7;
  gathered = record { members = (lit "x", new_int64 (pos 1)) ∷ []; kvs = lit "x=1" ∷ [] };
}

abbrev rounds : ℕ → Gotten ℕ
rounds zero = gotten (lit "a")
rounds (suc i) = gotten (lit "b")

abbrev in_turn : List Event
in_turn = formats 0 ∷ publishes 0 ∷ formats 1 ∷ publishes 1 ∷ []

abbrev crossed : List Event
crossed = formats 0 ∷ formats 1 ∷ publishes 0 ∷ publishes 1 ∷ []

-- The first round is published under the topic of the second.
crossed_test :
    interleaved decimal to_json c rounds crossed []
    ≡ ok (over_mqtt (lit "t/d/b") (lit "{}") ∷ over_mqtt (lit "t/d/b") (lit "{}") ∷ [])
unfolding interleaved format_topic publish_under publish sprintf print_unsigned decimal decimal_fuel
    get_payload_format joined strncmp_is_zero
crossed_test = refl
