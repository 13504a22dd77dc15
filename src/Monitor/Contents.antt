-- ===== src/Monitor/Contents.antt =====
-- What the switch makes of a value that fits, and what a round of polling gathers.
use factory_thing.Base.{
  ℕ, ◌<◌, ◌≡◌, refl, ap, ◌∙◌, Option, none, some, [], ◌∷◌, ◌++◌, arith, ◌==◌, if◌then◌else◌,
  Bool-cases, inl, inr, All, Run, ok, ◌>>=◌, bind-inv, append-nil, append_assoc,
}
use factory_thing.CString.Defs.{Bytes, strlen}
use factory_thing.CString.Digits.{strlen_snoc}
use factory_thing.Int.{pos}
use factory_thing.Config.Defs.{Node, Map}
use factory_thing.Monitor.Value.{
  Value, boolean, sbyte, byte, int16, uint16, int32, uint32, int64, uint64, float, double, string,
  unsupported, untyped, UaString, JsonValue, new_boolean, new_int, new_int64, new_double,
  new_string, Members, Converted, half32, half64, to_signed, Switch, sprintf, poll_switch, add,
  convert_string, convert,
}
use factory_thing.Monitor.Round.{Gathered, poll_node, poll_nodes}
use factory_thing.Monitor.Pairs.{value_text, rest, FitsRead, sprintf_lem, poll_nodes_iff}
use factory_thing.Monitor.Sent.{alias_of, pairs, poll_nodes-pairs}

-- The member for a value, if there is one: an empty string has none.
abbrev pub value_json : {F : Type 0} → Value F → Option (JsonValue F)
value_json (boolean b) = some (new_boolean b)
value_json (sbyte z) = some (new_int z)
value_json (byte n) = some (new_int (pos n))
value_json (int16 z) = some (new_int z)
value_json (uint16 n) = some (new_int (pos n))
value_json (int32 z) = some (new_int z)
value_json (uint32 n) = some (new_int (to_signed half32 n))
value_json (int64 z) = some (new_int64 z)
value_json (uint64 n) = some (new_int64 (to_signed half64 n))
value_json (float x) = some (new_double x)
value_json (double x) = some (new_double x)
value_json (string s) = if s.length == 0 then none else some (new_string s.printed)
value_json unsupported = none
value_json untyped = none

abbrev pub member : {F : Type 0} → Bytes → Option (JsonValue F) → Members F
member alias none = []
member alias (some j) = (alias, j) ∷ []

abbrev pub read_json : {F : Type 0} → Option (Value F) → Option (JsonValue F)
read_json none = none
read_json (some v) = value_json v

-- The members for the nodes, in order.
abbrev pub members_of : {F : Type 0} → (ℕ → Option (Value F)) → Map Node → Members F
members_of read [] = []
members_of read ((k, d) ∷ nodes) =
    member (alias_of d.alias) (read_json (read k)) ++ members_of read nodes

module _ {F : Type 0} (print_f : F → Bytes) where
  -- What is printed of a value by a switch: the two differ in a UInt64.
  abbrev pub text_of : Switch → Value F → Option Bytes
  text_of sw (uint64 n) = some (sw.print_uint64 n)
  text_of sw v = value_text print_f v

  -- The text fits the array of the switch.
  abbrev pub FitsIn : Switch → Value F → Type 0
  FitsIn sw untyped = ⊥
  FitsIn sw v = elim (text_of sw v) [ none ↦ Unit | some text ↦ strlen text < sw.size ]

  -- A value that is supported leaves its member and its text.
  abbrev pub left_of : Switch → Bytes → Value F → Option (Run (Converted F))
  left_of sw alias v = elim (text_of sw v) [
    | none ↦ none
    | some text ↦ some (ok (record { members = member alias (value_json v); text = text }))
  ]

  module _ (sw : Switch) (alias : Bytes) where
    add_lem :
        (j : JsonValue F) (s : Bytes)
        → strlen s < sw.size
        → some (add print_f sw (some alias) j s)
          ≡ some (ok (record { members = (alias, j) ∷ []; text = s }))
    unfolding add
    add_lem j s fits = rw (sprintf_lem sw.size s fits) refl

    string_lem :
        (s : UaString)
        → FitsIn sw (string s)
        → some (convert_string print_f sw (some alias) s) ≡ left_of sw alias (string s)
    unfolding convert_string
    string_lem s fits = elim (Bool-cases (s.length == 0)) [
      | inl e ↦ rw e refl
      | inr e ↦
          let quoted : strlen (b'"' ∷ (s.printed ++ (b'"' ∷ []))) < sw.size = rw e at fits in
          rw
            (
              e,
              sprintf_lem sw.size s.printed (grind (arith, strlen_snoc s.printed b'"')),
              sprintf_lem sw.size (b'"' ∷ (s.printed ++ (b'"' ∷ []))) quoted,
            )
            refl
    ]

    pub convert_lem :
        (v : Value F) → FitsIn sw v → convert print_f sw (some alias) v ≡ left_of sw alias v
    unfolding convert
    convert_lem (boolean b) fits = add_lem _ _ fits
    convert_lem (sbyte z) fits = add_lem _ _ fits
    convert_lem (byte n) fits = add_lem _ _ fits
    convert_lem (int16 z) fits = add_lem _ _ fits
    convert_lem (uint16 n) fits = add_lem _ _ fits
    convert_lem (int32 z) fits = add_lem _ _ fits
    convert_lem (uint32 n) fits = add_lem _ _ fits
    convert_lem (int64 z) fits = add_lem _ _ fits
    convert_lem (uint64 n) fits = add_lem _ _ fits
    convert_lem (float x) fits = add_lem _ _ fits
    convert_lem (double x) fits = add_lem _ _ fits
    convert_lem (string s) fits = string_lem s fits
    convert_lem unsupported fits = refl
    convert_lem untyped never = absurd never

  rest-members :
      (alias : Option Bytes) (got r : Gathered F) (x : Converted F)
      → rest print_f alias got x ≡ ok r
      → r.members ≡ got.members ++ x.members
  unfolding sprintf
  rest-members alias got r x h = ground arith

  then-members :
      (step : Run (Converted F)) (ms : Members F)
      → ((x : Converted F) → step ≡ ok x → x.members ≡ ms)
      → (alias : Option Bytes) (got r : Gathered F) → (step >>= rest print_f alias got) ≡ ok r
      → r.members ≡ got.members ++ ms
  then-members step ms says alias got r h =
      let (x, e, k) = bind-inv step _ h in
      rest-members alias got r x k ∙ ap (λ m. got.members ++ m) (says x e)

  add-members :
      (j : JsonValue F) (s : Bytes) (alias : Option Bytes) (got r : Gathered F)
      → (add print_f poll_switch alias j s >>= rest print_f alias got) ≡ ok r
      → r.members ≡ got.members ++ member (alias_of alias) (some j)
  unfolding add sprintf
  add-members j s alias = then-members _ _ (λ x e. added alias x e) alias
    where
      added :
          (alias : Option Bytes) (x : Converted F)
          → add print_f poll_switch alias j s ≡ ok x
          → x.members ≡ member (alias_of alias) (some j)
      added alias x e = ground arith

  string-members :
      (s : UaString) (alias : Option Bytes) (x : Converted F)
      → convert_string print_f poll_switch alias s ≡ ok x
      → x.members ≡ member (alias_of alias) (value_json (string s))
  unfolding convert_string sprintf
  string-members s alias x e = ground arith

  poll_node-members :
      (d : Node) (v : Option (Value F)) (got r : Gathered F)
      → poll_node print_f d v got ≡ ok r
      → r.members ≡ got.members ++ member (alias_of d.alias) (read_json v)
  unfolding poll_node convert
  poll_node-members d none got r h = rw (append-nil got.members) cc
  poll_node-members d (some (boolean b)) got r h = add-members _ _ d.alias got r h
  poll_node-members d (some (sbyte z)) got r h = add-members _ _ d.alias got r h
  poll_node-members d (some (byte n)) got r h = add-members _ _ d.alias got r h
  poll_node-members d (some (int16 z)) got r h = add-members _ _ d.alias got r h
  poll_node-members d (some (uint16 n)) got r h = add-members _ _ d.alias got r h
  poll_node-members d (some (int32 z)) got r h = add-members _ _ d.alias got r h
  poll_node-members d (some (uint32 n)) got r h = add-members _ _ d.alias got r h
  poll_node-members d (some (int64 z)) got r h = add-members _ _ d.alias got r h
  poll_node-members d (some (uint64 n)) got r h = add-members _ _ d.alias got r h
  poll_node-members d (some (float y)) got r h = add-members _ _ d.alias got r h
  poll_node-members d (some (double y)) got r h = add-members _ _ d.alias got r h
  poll_node-members d (some (string s)) got r h =
      then-members _ _ (string-members s d.alias) d.alias got r h
  poll_node-members d (some unsupported) got r h = rw (append-nil got.members) cc
  poll_node-members d (some untyped) got r h = cc

  poll_nodes-members :
      (read : ℕ → Option (Value F)) (nodes : Map Node) (got r : Gathered F)
      → poll_nodes print_f read nodes got ≡ ok r
      → r.members ≡ got.members ++ members_of read nodes
  unfolding poll_nodes
  poll_nodes-members read [] got r h = rw (append-nil got.members) cc
  poll_nodes-members read ((k, d) ∷ nodes) got r h =
      let (next, e, more) = bind-inv (poll_node print_f d (read k) got) _ h in
      poll_nodes-members read nodes next r more
      ∙ (ap (λ m. m ++ members_of read nodes) (poll_node-members d (read k) got next e)
          ∙ append_assoc got.members (member (alias_of d.alias) (read_json (read k)))
              (members_of read nodes))

  -- Where what is read fits, the nodes give their members and their pairs, in order.
  pub poll_nodes_lem :
      (read : ℕ → Option (Value F)) (nodes : Map Node)
      → All (λ (k, d). FitsRead print_f d.alias (read k)) nodes
      → poll_nodes print_f read nodes (record { members = []; kvs = [] })
        ≡ ok (record { members = members_of read nodes; kvs = pairs print_f read nodes })
  poll_nodes_lem read nodes fits =
      let start : Gathered F = record { members = []; kvs = [] } in
      let (r, e) = (poll_nodes_iff print_f read nodes start).1 fits in
      let ms = poll_nodes-members read nodes start r e in
      let kvs = poll_nodes-pairs print_f read nodes start r e in
      e ∙ (λ i. ok (record { members = ms i; kvs = kvs i }))
