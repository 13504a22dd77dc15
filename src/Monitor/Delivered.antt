-- ===== src/Monitor/Delivered.antt =====
-- What the transports of a group are given, by the format of the group.
use factory_thing.Base.{◌≡◌, refl, Bool, some, List, [], ◌∷◌, Run, ok, if◌then◌else◌}
use factory_thing.CString.Defs.{Bytes}
use factory_thing.Config.Defs.{Group}
use factory_thing.Config.Modes.{PayloadFormat, json, key_val, get_payload_format}
use factory_thing.Monitor.Publish.{Message, over_mqtt, over_tcp, publish}

-- What the transports of a group are given.
abbrev pub delivered : Bool → Bool → Bytes → Bytes → Bytes → List Message
delivered mqtt tcp topic mqtt_text tcp_text =
    let rest = if tcp then over_tcp tcp_text ∷ [] else [] in
    if mqtt then over_mqtt topic mqtt_text ∷ rest else rest

pub publish_lem :
    (g : Group) (mqtt tcp : Bool) (topic m t : Bytes)
    → g.mqtt ≡ some mqtt
    → g.tcp ≡ some tcp
    → publish g topic m t ≡ ok (delivered mqtt tcp topic m t)
unfolding publish
publish_lem g mqtt tcp topic m t e1 e2 = rw (e1, e2) refl

-- What is published of the text of a value, by the format: the two texts are those for MQTT and TCP.
abbrev pub by_format : Bytes → (Bytes × Bytes) → (Bytes × Bytes) → Bytes × Bytes
by_format format as_json as_line = elim (get_payload_format format) [
  | json ↦ as_json
  | key_val ↦ as_line
]

pub choose_lem :
    (p : PayloadFormat) {a b : Run (List Message)} (g : Group) (mqtt tcp : Bool) (topic : Bytes)
    (as_json as_line : Bytes × Bytes)
    → a ≡ ok (delivered mqtt tcp topic as_json.0 as_json.1)
    → b ≡ ok (delivered mqtt tcp topic as_line.0 as_line.1)
    → elim p as (λ p. Run (List Message)) [ json ↦ a | key_val ↦ b ]
      ≡ ok (
          let texts : Bytes × Bytes = elim p [ json ↦ as_json | key_val ↦ as_line ] in
          delivered mqtt tcp topic texts.0 texts.1)
choose_lem json g mqtt tcp topic as_json as_line ea eb = ea
choose_lem key_val g mqtt tcp topic as_json as_line ea eb = eb
