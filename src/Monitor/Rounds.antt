-- ===== src/Monitor/Rounds.antt =====
-- What a round of `opcua_poll_group` publishes, where the texts fit the arrays `topic` and `skv`.
use factory_thing.Base.{
  ℕ, suc, ◌+◌, ◌-◌, ◌<◌, ◌≡◌, refl, Bool, Option, some, List, [], ◌∷◌, ◌++◌, arith, All, ok,
  if◌then◌else◌,
}
use factory_thing.CString.Defs.{Bytes, lit, strlen}
use factory_thing.CString.Digits.{decimal-le}
use factory_thing.Config.Defs.{Configuration, Group}
use factory_thing.Config.Modes.{get_payload_format}
use factory_thing.Int.{ℤ, pos, negsuc}
use factory_thing.Monitor.Value.{Value, half64, new_int64, Members, is_empty}
use factory_thing.Monitor.Publish.{Message}
use factory_thing.Monitor.Callback.{path}
use factory_thing.Monitor.Round.{pair, print_unsigned, joined, poll_message, poll_round}
use factory_thing.Monitor.Pairs.{FitsRead, sprintf_lem}
use factory_thing.Monitor.Sent.{pairs, line, topic_of, joined_lem}
use factory_thing.Monitor.Contents.{members_of, poll_nodes_lem}
use factory_thing.Monitor.Sendable.{InRange}
use factory_thing.Monitor.Delivered.{delivered, publish_lem, by_format, choose_lem}

-- A group with all that a round uses, and a topic that fits in 63 bytes.
pub record PollReady (c : Configuration) (g : Group) : Type 0 where
  pub group_topic : Bytes
  pub format : Bytes
  pub mqtt : Bool
  pub tcp : Bool
  pub group_topic_given : g.topic ≡ some group_topic
  pub format_given : g.format ≡ some format
  pub mqtt_given : g.mqtt ≡ some mqtt
  pub tcp_given : g.tcp ≡ some tcp
  pub topic_fits : strlen (path c.topic_base (c.device_id ∷ group_topic ∷ [])) < 64

time_fits : (time : ℤ) → InRange time → strlen (pair (lit "time") (print_unsigned time)) < 32
unfolding print_unsigned
time_fits (pos n) low = grind (arith, decimal-le n 18 (omega arith))
time_fits (negsuc n) low = grind (arith, decimal-le (half64 + half64 - suc n) 19 (omega arith))

module _ {F : Type 0} (print_f : F → Bytes) (to_json : Members F → Bytes) (c : Configuration)
    (g : Group) (time : ℤ) where
  -- JSON with the members of the nodes and the time, which ends in a newline over TCP only; or the
  -- line of the pairs.
  abbrev pub round_texts : Bytes → (ℕ → Option (Value F)) → Bytes × Bytes
  round_texts format read =
      let contents = to_json (members_of read g.nodes ++ ((lit "time", new_int64 time) ∷ [])) in
      let pairs_line = line print_f to_json c g time read in
      by_format format (contents, contents ++ (10 ∷ [])) (pairs_line, pairs_line)

  -- What a round publishes of what it reads: nothing, if no node gives a member.
  abbrev pub round_of : PollReady c g → (ℕ → Option (Value F)) → List Message
  round_of ready read =
      let texts = round_texts ready.format read in
      if is_empty (members_of read g.nodes)
      then []
      else delivered ready.mqtt ready.tcp (topic_of print_f to_json c g time ready.group_topic)
          texts.0 texts.1

  pub poll_message_lem :
      (ready : PollReady c g) (ms : Members F) (kvs : List Bytes)
      → InRange time
      → let contents = to_json (ms ++ ((lit "time", new_int64 time) ∷ [])) in
        let all = joined kvs (pair (lit "time") (print_unsigned time)) in
        let texts = by_format ready.format (contents, contents ++ (10 ∷ [])) (all, all) in
        poll_message print_f to_json c g time (record { members = ms; kvs = kvs })
        ≡ ok (
            if is_empty ms
            then []
            else delivered ready.mqtt ready.tcp
                (topic_of print_f to_json c g time ready.group_topic)
                texts.0
                texts.1)
  unfolding poll_message
  poll_message_lem ready [] kvs low =
      rw (ready.group_topic_given, sprintf_lem 64 _ ready.topic_fits) refl
  poll_message_lem ready (m ∷ ms) kvs low =
      rw
        (
          ready.group_topic_given,
          sprintf_lem 64 _ ready.topic_fits,
          sprintf_lem 32 _ (time_fits time low),
          ready.format_given,
        )
        (choose_lem (get_payload_format ready.format) g ready.mqtt ready.tcp _ _ _
          (publish_lem g ready.mqtt ready.tcp _ _ _ ready.mqtt_given ready.tcp_given)
          (publish_lem g ready.mqtt ready.tcp _ _ _ ready.mqtt_given ready.tcp_given))

  -- For a group that is ready, where each value that is read fits its arrays, a round publishes one
  -- text over the transports of the group, under the topic of the base, the device and the group: the
  -- JSON text of a member for each node with a value, in the order of the nodes, and of the time,
  -- which ends in a newline over TCP; or, by the format, the line with "alias=text, " for each node
  -- with a supported value, then "time=" and the time. Where no node gives a member, it publishes
  -- nothing.
  pub poll_round_lem :
      (ready : PollReady c g) (read : ℕ → Option (Value F))
      → InRange time
      → All (λ (k, d). FitsRead print_f d.alias (read k)) g.nodes
      → poll_round print_f to_json c g time read ≡ ok (round_of ready read)
  unfolding poll_round
  poll_round_lem ready read low fits = rw (poll_nodes_lem print_f read g.nodes fits) (
      rw (← joined_lem (pairs print_f read g.nodes) (pair (lit "time") (print_unsigned time)))
        (poll_message_lem ready (members_of read g.nodes) (pairs print_f read g.nodes) low))
