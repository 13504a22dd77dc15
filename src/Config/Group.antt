-- ===== src/Config/Group.antt =====
-- `make_group`: one object of "node-map" becomes a group.
use factory_thing.Base.{
  ℕ, zero, suc, ◌+◌, some, List, [], ◌∷◌, if◌then◌else◌, ◌==◌, Run, ok, ◌>>=◌, ◌>>◌, need,
}
use factory_thing.CString.Defs.{Bytes, lit, matches, strlen}
use factory_thing.Int.{ℤ, pos, minus_one}
use factory_thing.Json.{object_type, array_type, JsonLib}
use factory_thing.Config.Defs.{Node, unset_node, Group, insert}

-- What one key of a group does: the loop goes on, or `make_group` returns -1.
pub data Step : Type 0 where
  next : Group → Step
  stop : Group → Step

-- `rounds` are the members that are left.
abbrev pub after_step : (Group → Run (ℤ × Group)) → Step → Run (ℤ × Group)
after_step rounds (next g) = rounds g
after_step rounds (stop g) = ok (minus_one, g)

module _ (J : JsonLib) where
  open J use {Ptr, get_type, entries, array_length, array_get_idx, get_string, get_int, get_boolean}

  -- strndup(json_object_get_string(v), strlen(json_object_get_string(v)))
  unfoldable pub dup : Ptr → Run Bytes
  dup v = need (get_string v)

  -- One member of a node's object. An empty alias stands for the topic.
  unfoldable pub node_field : Node → Bytes → Ptr → Run Node
  unfolding dup
  node_field n key v =
      if matches key (lit "id")
      then (do s ← dup v; ok (record n { id = some s }))
      else if matches key (lit "topic")
      then (do s ← dup v; ok (record n { topic = some s }))
      else if matches key (lit "alias")
      then (do
        s ← dup v
        if strlen s == 0
            then (do t ← need n.topic; ok (record n { alias = some t }))
            else ok (record n { alias = some s }))
      else ok n

  unfoldable pub node_fields : Node → List (Bytes × Ptr) → Run Node
  node_fields n [] = ok n
  node_fields n ((key, v) ∷ rest) = node_field n key v >>= λ n'. node_fields n' rest

  -- An element that is no object leaves `n` as the last element left it.
  unfoldable pub read_node : Node → Ptr → Run Node
  read_node n p = elim (get_type p) [ object_type ↦ node_fields n (entries p) | _ ↦ ok n ]

  -- The line that is printed of every element reads all three strings.
  unfoldable pub show_node : Node → Run (Unit {0})
  show_node n = do i ← need n.id; t ← need n.topic; a ← need n.alias; ok tt

  -- The loop over the array `val` from `i` on, with `rounds` left. `n` is one variable for all.
  unfoldable pub read_nodes : Ptr → ℕ → ℕ → Node → Group → Run Group
  read_nodes val zero i n g = ok g
  read_nodes val (suc rounds) i n g = do
    n' ← read_node n (array_get_idx val i)
    show_node n'
    read_nodes val rounds (i + 1) n' (record g { nodes = insert i n' g.nodes })

  unfoldable pub group_nodes : Group → Ptr → Run Group
  group_nodes g val = elim (get_type val) [
    | array_type ↦ read_nodes val (array_length val) 0 unset_node g
    | _ ↦ ok g
  ]

  unfoldable pub group_field : Group → Bytes → Ptr → Run Step
  unfolding dup
  group_field g key v =
      if matches key (lit "name")
      then (do s ← dup v; ok (next (record g { name = some s })))
      else if matches key (lit "method")
      then (do s ← dup v; ok (next (record g { method = some s })))
      else if matches key (lit "intervalUSec")
      then ok (next (record g { interval_usec = some (get_int v) }))
      else if matches key (lit "topic")
      then (do s ← dup v; ok (next (record g { topic = some s })))
      else if matches key (lit "format")
      then (do s ← dup v; ok (next (record g { format = some s })))
      else if matches key (lit "mqtt")
      then ok (next (record g { mqtt = some (get_boolean v) }))
      else if matches key (lit "amqp")
      then ok (next (record g { amqp = some (get_boolean v) }))
      else if matches key (lit "tcp")
      then ok (next (record g { tcp = some (get_boolean v) }))
      else if matches key (lit "enable")
      then ok (next (record g { enable = some (get_boolean v) }))
      else if matches key (lit "nodes")
      then (do g' ← group_nodes g v; ok (next g'))
      else ok (stop g)

  -- The loop over the members: the status that `make_group` returns, and the group.
  unfoldable pub group_fields : Group → List (Bytes × Ptr) → Run (ℤ × Group)
  group_fields g [] = ok (pos 0, g)
  group_fields g ((key, v) ∷ rest) = group_field g key v >>= after_step (λ g'. group_fields g' rest)

  unfoldable pub make_group : Ptr → Group → Run (ℤ × Group)
  make_group r g = group_fields g (entries r)
