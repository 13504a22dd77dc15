-- ===== src/Monitor/Round.antt =====
-- One round of `opcua_poll_group`: the nodes of a group are read and published together.
use factory_thing.Base.{
  if◌then◌else◌, ℕ, suc, ◌+◌, ◌-◌, Option, none, some, List, [], ◌∷◌, ◌++◌, Run, ok, ◌>>=◌, need,
}
use factory_thing.CString.Defs.{Bytes, lit, decimal}
use factory_thing.Int.{ℤ, pos, negsuc}
use factory_thing.Config.Defs.{Configuration, Group, Node, Map}
use factory_thing.Config.Modes.{json, key_val, get_payload_format}
use factory_thing.Monitor.Value.{
  Value, new_int64, Members, is_empty, half64, sprintf, poll_switch, convert,
}
use factory_thing.Monitor.Publish.{Message, publish}
use factory_thing.Monitor.Callback.{path}

-- `jobj` and `kvs`.
pub record Gathered (F : Type 0) : Type 0 where
  pub members : Members F
  pub kvs : List Bytes

-- %lu
unfoldable pub print_unsigned : ℤ → Bytes
print_unsigned (pos n) = decimal n
print_unsigned (negsuc n) = decimal (half64 + half64 - suc n)

abbrev pub pair : Bytes → Bytes → Bytes
pair key text = key ++ (b'=' ∷ text)

-- copy(kvs.begin(), kvs.end() - 1, ostream_iterator<char*>(ss, ", ")); ss << kvs.back();
unfoldable pub joined : List Bytes → Bytes → Bytes
joined [] last = last
joined (kv ∷ kvs) last = kv ++ (lit ", " ++ joined kvs last)

module _ {F : Type 0} (print_f : F → Bytes) where
  -- One node: `none` is a read that fails, after which the round goes on with the next node once
  -- the connection is back.
  unfoldable pub poll_node : Node → Option (Value F) → Gathered F → Run (Gathered F)
  poll_node d none got = ok got
  poll_node d (some v) got = elim (convert print_f poll_switch d.alias v) [
    | none ↦ ok got
    | some converted ↦ do
      x ← converted
      alias ← need d.alias
      skv ← sprintf 32 (pair alias x.text)
      ok (record { members = got.members ++ x.members; kvs = got.kvs ++ (skv ∷ []) })
  ]

  -- The nodes in the order of their keys; `read` is what reading the node of a key gives.
  unfoldable pub poll_nodes : (ℕ → Option (Value F)) → Map Node → Gathered F → Run (Gathered F)
  unfolding poll_node
  poll_nodes read [] got = ok got
  poll_nodes read ((k, d) ∷ nodes) got = do
    next ← poll_node d (read k) got
    poll_nodes read nodes next

module _ {F : Type 0} (print_f : F → Bytes) (to_json : Members F → Bytes) (c : Configuration)
    (g : Group) (time : ℤ) where
  -- From the topic on. Only over TCP the JSON text ends in a newline.
  unfoldable pub poll_message : Gathered F → Run (List Message)
  poll_message got = do
    group_topic ← need g.topic
    topic ← sprintf 64 (path c.topic_base (c.device_id ∷ group_topic ∷ []))
    if is_empty got.members then ok [] else (do
      skv ← sprintf 32 (pair (lit "time") (print_unsigned time))
      format ← need g.format
      let contents = to_json (got.members ++ ((lit "time", new_int64 time) ∷ []))
      let line = joined got.kvs skv
      elim (get_payload_format format) [
        | json ↦ publish g topic contents (contents ++ (10 ∷ []))
        | key_val ↦ publish g topic line line
      ])

  unfoldable pub poll_round : (ℕ → Option (Value F)) → Run (List Message)
  unfolding poll_nodes poll_message
  poll_round read = do
    got ← poll_nodes print_f read g.nodes (record { members = []; kvs = [] })
    poll_message got
