-- ===== src/Monitor/Returns.antt =====
-- What `callback` publishes, where the texts fit the arrays `topic`, `payload` and `value`.
use factory_thing.Base.{◌<◌, ◌≤◌, ◌≡◌, Bool, Option, none, some, List, [], ◌∷◌, ◌++◌}
use factory_thing.CString.Defs.{Bytes, lit, strlen}
use factory_thing.Config.Defs.{Configuration, Group, Node}
use factory_thing.Int.{ℤ}
use factory_thing.Monitor.Value.{Value, JsonValue, Members, new_int64, print_int, callback_switch}
use factory_thing.Monitor.Sent.{alias_of}
use factory_thing.Monitor.Contents.{value_json, text_of}
use factory_thing.Monitor.Publish.{Message}
use factory_thing.Monitor.Callback.{path}
use factory_thing.Monitor.Sendable.{Sendable}
use factory_thing.Monitor.Delivered.{delivered, by_format}

-- A group and a node with all that `callback` uses, and texts that fit: the topic in 63 bytes, the
-- alias in 196.
pub record Ready (c : Configuration) (g : Group) (d : Node) : Type 0 where
  pub group_topic : Bytes
  pub node_topic : Bytes
  pub alias : Bytes
  pub format : Bytes
  pub mqtt : Bool
  pub tcp : Bool
  pub group_topic_given : g.topic ≡ some group_topic
  pub node_topic_given : d.topic ≡ some node_topic
  pub alias_given : d.alias ≡ some alias
  pub format_given : g.format ≡ some format
  pub mqtt_given : g.mqtt ≡ some mqtt
  pub tcp_given : g.tcp ≡ some tcp
  pub topic_fits : strlen (path c.topic_base (c.device_id ∷ group_topic ∷ node_topic ∷ [])) < 64
  pub alias_fits : strlen alias ≤ 196

module _ {F : Type 0} (print_f : F → Bytes) (to_json : Members F → Bytes) (c : Configuration)
    (g : Group) (d : Node) (time : ℤ) where
  -- The message for a member and its text: JSON with the time, or a line that begins with the time.
  abbrev pub event_texts : Bytes → Bytes → JsonValue F → Bytes → Bytes × Bytes
  event_texts alias format j text =
      let contents = to_json ((alias, j) ∷ (lit "time", new_int64 time) ∷ []) in
      let payload = lit "time=" ++ (print_int time ++ (lit ", " ++ (alias ++ (lit "=" ++ text)))) in
      by_format format (contents, contents) (payload, payload)

  -- What is published of a member and its text, if there is a member.
  abbrev pub event_for : Ready c g d → Option (JsonValue F) → Bytes → List Message
  event_for ready none text = []
  event_for ready (some j) text =
      let texts = event_texts ready.alias ready.format j text in
      delivered ready.mqtt ready.tcp
        (path c.topic_base (c.device_id ∷ ready.group_topic ∷ ready.node_topic ∷ [])) texts.0
        texts.1

  -- What `callback` publishes of a value.
  abbrev pub event_of : Ready c g d → Value F → List Message
  event_of ready v = event_for ready (value_json v) (alias_of (text_of print_f callback_switch v))
