-- ===== src/Monitor/Callback.antt =====
-- `callback`, which the client library calls when a monitored value changes.
use factory_thing.Base.{
  if◌then◌else◌, Option, none, some, List, [], ◌∷◌, ◌++◌, Run, ok, ◌>>=◌, need,
}
use factory_thing.CString.Defs.{Bytes, lit}
use factory_thing.Int.{ℤ}
use factory_thing.Config.Defs.{Configuration, Group, Node}
use factory_thing.Config.Modes.{json, key_val, get_payload_format}
use factory_thing.Monitor.Value.{
  Value, new_int64, Members, is_empty, print_int, sprintf, callback_switch, convert,
}
use factory_thing.Monitor.Publish.{Message, publish}

-- Texts with a '/' between them.
abbrev pub path : Bytes → List Bytes → Bytes
path first [] = first
path first (next ∷ rest) = first ++ (b'/' ∷ path next rest)

-- json_object_to_json_string_ext of an object to which members have been added, and what `%f`
-- prints, as the libraries have them. `epoch()` gives `time`.
module _ {F : Type 0} (print_f : F → Bytes) (to_json : Members F → Bytes) (c : Configuration)
    (g : Group) (d : Node) (time : ℤ) where
  -- From the topic on.
  unfoldable pub event_message : Members F → Bytes → Run (List Message)
  event_message members text = do
    group_topic ← need g.topic
    node_topic ← need d.topic
    topic ← sprintf 64 (path c.topic_base (c.device_id ∷ group_topic ∷ node_topic ∷ []))
    if is_empty members then ok [] else (do
      alias ← need d.alias
      payload ←
          sprintf 256
            (lit "time=" ++ (print_int time ++ (lit ", " ++ (alias ++ (lit "=" ++ text)))))
      format ← need g.format
      let contents = to_json (members ++ ((lit "time", new_int64 time) ∷ []))
      elim (get_payload_format format) [
        | json ↦ publish g topic contents contents
        | key_val ↦ publish g topic payload payload
      ])

  -- `data` is `none` if it has no value. The text of a value that is not supported is not used.
  unfoldable pub callback : Option (Value F) → Run (List Message)
  unfolding event_message
  callback none = ok []
  callback (some v) = elim (convert print_f callback_switch d.alias v) [
    | none ↦ event_message [] []
    | some converted ↦ do x ← converted; event_message x.members x.text
  ]
