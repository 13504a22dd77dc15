-- ===== src/Monitor/Sent.antt =====
-- What a round of polling publishes as key=value lines.
use factory_thing.Base.{
  ℕ, ◌≡◌, ◌⊎◌, refl, ap, sym, subst, ◌∙◌, Option, none, some, List, [], ◌∷◌, ◌++◌, arith, Run, ok,
  ◌>>=◌, bind-inv, append-nil, append_assoc,
}
use factory_thing.CString.Defs.{Bytes, lit}
use factory_thing.Config.Defs.{Configuration, Group, Node, Map}
use factory_thing.Config.Modes.{get_payload_format, key_val}
use factory_thing.Int.{ℤ}
use factory_thing.Monitor.Value.{
  Value, boolean, sbyte, byte, int16, uint16, int32, uint32, int64, uint64, float, double, string,
  unsupported, untyped, JsonValue, Members, Converted, sprintf, poll_switch, add, convert,
}
use factory_thing.Monitor.Publish.{Message, publish}
use factory_thing.Monitor.Callback.{path}
use factory_thing.Monitor.Round.{
  Gathered, pair, print_unsigned, joined, poll_node, poll_nodes, poll_message, poll_round,
}
use factory_thing.Monitor.Pairs.{value_text, rest, add-text, string-text}

abbrev pub alias_of : Option Bytes → Bytes
alias_of none = []
alias_of (some a) = a

-- "alias=text" of a node, if there is a text.
abbrev pub pair_of : Option Bytes → Option Bytes → List Bytes
pair_of alias none = []
pair_of alias (some text) = pair (alias_of alias) text ∷ []

abbrev pub read_text : {F : Type 0} → (F → Bytes) → Option (Value F) → Option Bytes
read_text print_f none = none
read_text print_f (some v) = value_text print_f v

-- The pairs of the nodes, in order.
abbrev pub pairs : {F : Type 0} → (F → Bytes) → (ℕ → Option (Value F)) → Map Node → List Bytes
pairs print_f read [] = []
pairs print_f read ((k, d) ∷ nodes) =
    pair_of d.alias (read_text print_f (read k)) ++ pairs print_f read nodes

module _ {F : Type 0} (print_f : F → Bytes) where
  rest-pair :
      (alias : Option Bytes) (got r : Gathered F) (x : Converted F)
      → rest print_f alias got x ≡ ok r
      → r.kvs ≡ got.kvs ++ pair_of alias (some x.text)
  unfolding sprintf
  rest-pair alias got r x h = ground arith

  then-pair :
      (step : Run (Converted F)) (text : Bytes)
      → ((x : Converted F) → step ≡ ok x → x.text ≡ text)
      → (alias : Option Bytes) (got r : Gathered F) → (step >>= rest print_f alias got) ≡ ok r
      → r.kvs ≡ got.kvs ++ pair_of alias (some text)
  then-pair step text says alias got r h =
      let (x, e, k) = bind-inv step _ h in
      subst (λ t. r.kvs ≡ got.kvs ++ pair_of alias (some t)) (says x e) (rest-pair alias got r x k)

  add-pair :
      (j : JsonValue F) (s : Bytes) (alias : Option Bytes) (got r : Gathered F)
      → (add print_f poll_switch alias j s >>= rest print_f alias got) ≡ ok r
      → r.kvs ≡ got.kvs ++ pair_of alias (some s)
  add-pair j s alias = then-pair _ s (λ x h. add-text print_f alias j s h) alias

  poll_node-pair :
      (d : Node) (v : Option (Value F)) (got r : Gathered F)
      → poll_node print_f d v got ≡ ok r
      → r.kvs ≡ got.kvs ++ pair_of d.alias (read_text print_f v)
  unfolding poll_node convert
  poll_node-pair d none got r h = rw (append-nil got.kvs) cc
  poll_node-pair d (some (boolean b)) got r h = add-pair _ _ d.alias got r h
  poll_node-pair d (some (sbyte z)) got r h = add-pair _ _ d.alias got r h
  poll_node-pair d (some (byte n)) got r h = add-pair _ _ d.alias got r h
  poll_node-pair d (some (int16 z)) got r h = add-pair _ _ d.alias got r h
  poll_node-pair d (some (uint16 n)) got r h = add-pair _ _ d.alias got r h
  poll_node-pair d (some (int32 z)) got r h = add-pair _ _ d.alias got r h
  poll_node-pair d (some (uint32 n)) got r h = add-pair _ _ d.alias got r h
  poll_node-pair d (some (int64 z)) got r h = add-pair _ _ d.alias got r h
  poll_node-pair d (some (uint64 n)) got r h = add-pair _ _ d.alias got r h
  poll_node-pair d (some (float y)) got r h = add-pair _ _ d.alias got r h
  poll_node-pair d (some (double y)) got r h = add-pair _ _ d.alias got r h
  poll_node-pair d (some (string s)) got r h =
      then-pair _ _ (λ x e. string-text print_f d.alias s e) d.alias got r h
  poll_node-pair d (some unsupported) got r h = rw (append-nil got.kvs) cc
  poll_node-pair d (some untyped) got r h = cc

  pub poll_nodes-pairs :
      (read : ℕ → Option (Value F)) (nodes : Map Node) (got r : Gathered F)
      → poll_nodes print_f read nodes got ≡ ok r
      → r.kvs ≡ got.kvs ++ pairs print_f read nodes
  unfolding poll_nodes
  poll_nodes-pairs read [] got r h = rw (append-nil got.kvs) cc
  poll_nodes-pairs read ((k, d) ∷ nodes) got r h =
      let (next, e, more) = bind-inv (poll_node print_f d (read k) got) _ h in
      poll_nodes-pairs read nodes next r more
      ∙ (ap (λ kvs. kvs ++ pairs print_f read nodes) (poll_node-pair d (read k) got next e)
          ∙ append_assoc got.kvs (pair_of d.alias (read_text print_f (read k)))
              (pairs print_f read nodes))

-- Each text followed by ", ".
abbrev pub followed : List Bytes → Bytes
followed [] = []
followed (kv ∷ kvs) = kv ++ (lit ", " ++ followed kvs)

pub joined_lem : (kvs : List Bytes) (last : Bytes) → joined kvs last ≡ followed kvs ++ last
unfolding joined
joined_lem [] last = refl
joined_lem (kv ∷ kvs) last =
    ap (λ t. kv ++ (lit ", " ++ t)) (joined_lem kvs last)
    ∙ (ap (λ t. kv ++ t) (sym (append_assoc (lit ", ") (followed kvs) last))
        ∙ sym (append_assoc kv (lit ", " ++ followed kvs) last))

module _ {F : Type 0} (print_f : F → Bytes) (to_json : Members F → Bytes) (c : Configuration)
    (g : Group) (time : ℤ) where
  -- The line of a round.
  abbrev pub line : (ℕ → Option (Value F)) → Bytes
  line read = followed (pairs print_f read g.nodes) ++ pair (lit "time") (print_unsigned time)

  abbrev pub topic_of : Bytes → Bytes
  topic_of group_topic = path c.topic_base (c.device_id ∷ group_topic ∷ [])

  -- What the two publishers are given, if they are.
  abbrev pub Publishes : Bytes → List Message → Type 0
  Publishes text ms =
      (ms ≡ []) ⊎ ((t : Bytes) × (g.topic ≡ some t) × (publish g (topic_of t) text text ≡ ok ms))

  message-line :
      (got : Gathered F) (f : Bytes) {ms : List Message}
      → g.format ≡ some f
      → get_payload_format f ≡ key_val
      → poll_message print_f to_json c g time got ≡ ok ms
      → Publishes (joined got.kvs (pair (lit "time") (print_unsigned time))) ms
  unfolding poll_message sprintf
  message-line got f set kv h = ground arith

  -- A round that returns, for a group whose format stands for key=value lines, publishes nothing, or
  -- gives the group's transports one line: "alias=text, " for each node with a supported value, in the
  -- order of the nodes, then "time=" and the time. The topic is the base, the device and the group's.
  poll_round-line :
      (read : ℕ → Option (Value F)) (f : Bytes) {ms : List Message}
      → g.format ≡ some f
      → get_payload_format f ≡ key_val
      → poll_round print_f to_json c g time read ≡ ok ms
      → Publishes (line read) ms
  unfolding poll_round
  poll_round-line read f {ms} set kv h =
      let (got, e, more) =
        bind-inv (poll_nodes print_f read g.nodes (record { members = []; kvs = [] })) _ h in
      subst (λ t. Publishes t ms)
        (ap (λ kvs. joined kvs (pair (lit "time") (print_unsigned time)))
            (poll_nodes-pairs print_f read g.nodes _ got e)
          ∙ joined_lem _ _)
        (message-line got f set kv more)
