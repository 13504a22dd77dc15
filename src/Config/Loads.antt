-- ===== src/Config/Loads.antt =====
-- A file that states its settings is loaded, and gives them.
use factory_thing.Base.{
  ℕ, suc, ◌+◌, ◌≡◌, ◌∙◌, refl, ap, sym, subst, some, List, [], ◌∷◌, ◌++◌, map, length, get_elem?,
  arith, ok, append-nil, append_assoc, ◌==◌, false,
}
use factory_thing.CString.Defs.{Bytes, lit, strlen, strncmp_is_zero}
use factory_thing.Int.{pos}
use factory_thing.Json.{JsonLib, array_type}
use factory_thing.Config.Defs.{Node, unset_node, Group, unset_group}
use factory_thing.Config.Group.{
  next, dup, node_field, node_fields, read_node, show_node, read_nodes, group_nodes, group_field,
  group_fields, make_group,
}
use factory_thing.Config.Nodes.{AllBelow, AllBelow-append, insert_at_end}
use factory_thing.Config.Meaning.{
  NodeSettings, Setting, name_is, method_is, topic_is, format_is, interval_usec_is, mqtt_is,
  amqp_is, tcp_is, enable_is, GroupSettings, alias_of, node_of, set, set_all, numbered, group_of,
  ArrayOf, SettingIs, SettingsAre, NodeIs, GroupIs,
}

set_all-nodes : (fs : List Setting) (g : Group) → (set_all fs g).nodes ≡ g.nodes
set_all-nodes [] g = refl
set_all-nodes (f ∷ fs) g = set_all-nodes fs (set f g) ∙ same f
  where
    same : (f : Setting) → (set f g).nodes ≡ g.nodes
    same (name_is s) = refl
    same (method_is s) = refl
    same (topic_is s) = refl
    same (format_is s) = refl
    same (interval_usec_is z) = refl
    same (mqtt_is b) = refl
    same (amqp_is b) = refl
    same (tcp_is b) = refl
    same (enable_is b) = refl

pub group_of-nodes : (s : GroupSettings) → (group_of s).nodes ≡ numbered 0 (map node_of s.nodes)
group_of-nodes s = set_all-nodes s.after _

module _ (J : JsonLib) where
  group_field_lem :
      (f : Setting) (key : Bytes) (v : J.Ptr) (g : Group)
      → SettingIs J f (key, v)
      → group_field J g key v ≡ ok (next (set f g))
  unfolding group_field dup strncmp_is_zero
  group_field_lem (name_is s) key v g (e, h) = rw (e, h) refl
  group_field_lem (method_is s) key v g (e, h) = rw (e, h) refl
  group_field_lem (topic_is s) key v g (e, h) = rw (e, h) refl
  group_field_lem (format_is s) key v g (e, h) = rw (e, h) refl
  group_field_lem (interval_usec_is z) key v g (e, h) = rw (e, h) refl
  group_field_lem (mqtt_is b) key v g (e, h) = rw (e, h) refl
  group_field_lem (amqp_is b) key v g (e, h) = rw (e, h) refl
  group_field_lem (tcp_is b) key v g (e, h) = rw (e, h) refl
  group_field_lem (enable_is b) key v g (e, h) = rw (e, h) refl

  group_fields_lem :
      (fs : List Setting) (ms rest : List (Bytes × J.Ptr)) (g : Group)
      → SettingsAre J fs ms
      → group_fields J g (ms ++ rest) ≡ group_fields J (set_all fs g) rest
  unfolding group_fields
  group_fields_lem [] [] rest g h = refl
  group_fields_lem [] (m ∷ ms) rest g h = absurd h
  group_fields_lem (f ∷ fs) [] rest g h = absurd h
  group_fields_lem (f ∷ fs) ((key, v) ∷ ms) rest g (one, h) =
      rw (group_field_lem f key v g one) (group_fields_lem fs ms rest (set f g) h)

  -- The three members set all that was there.
  node_fields_lem :
      (id topic alias : Bytes) (n : Node) (v w x : J.Ptr)
      → J.get_string v ≡ some id
      → J.get_string w ≡ some topic
      → J.get_string x ≡ some alias
      → node_fields J n ((lit "id", v) ∷ (lit "topic", w) ∷ (lit "alias", x) ∷ [])
        ≡ ok (record n { id = some id; topic = some topic; alias = some (alias_of topic alias) })
  unfolding node_fields node_field dup strncmp_is_zero
  node_fields_lem id topic [] n v w x e1 e2 e3 = rw (e1, e2, e3) refl
  node_fields_lem id topic (c ∷ alias) n v w x e1 e2 e3 =
      let e4 : strlen (c ∷ alias) == 0 ≡ false = ground arith in rw (e1, e2, e3, e4) refl

  -- The node is made anew, whatever the variable held, but for its id on the server.
  read_node_lem :
      (s : NodeSettings) (n : Node) (p : J.Ptr)
      → n.ua ≡ unset_node.ua
      → NodeIs J s p
      → read_node J n p ≡ ok (node_of s)
  unfolding read_node
  read_node_lem s n p fresh (is, v, w, x, e, id, topic, alias) =
      rw (is, read_node, e, node_fields_lem s.id s.topic s.alias n v w x id topic alias)
        (ap (λ ua. ok (record (node_of s) { ua = ua })) fresh)

  module _ {A : Type 0} (P : A → J.Ptr → Type 0) where
    -- The elements of an array from `i` on are those of a list.
    abbrev pub From : ℕ → List A → J.Ptr → Type 0
    From i xs val = (j : ℕ) (x : A) → get_elem? xs j ≡ some x → P x (J.array_get_idx val (i + j))

    pub From-rest :
        (i : ℕ) (x : A) (xs : List A) (val : J.Ptr)
        → From i (x ∷ xs) val
        → P x (J.array_get_idx val i) × From (i + 1) xs val
    From-rest i x xs val are = (
      at (i + 0) i x (omega arith) (are 0 x refl),
      λ j y e. at (i + suc j) (i + 1 + j) y (omega arith) (are (suc j) y e),
    )
      where
        at : (k l : ℕ) (x : A) → k ≡ l → P x (J.array_get_idx val k) → P x (J.array_get_idx val l)
        at k l x e = subst (λ k. P x (J.array_get_idx val k)) e

    pub ArrayOf-From : (xs : List A) (val : J.Ptr) → ArrayOf J P xs val → From 0 xs val
    ArrayOf-From xs val (long, elements) j x e =
        subst (λ k. P x (J.array_get_idx val k)) (omega arith) (elements j x e)

  read_nodes_lem :
      (val : J.Ptr) (ss : List NodeSettings) (i : ℕ) (n : Node) (g : Group)
      → n.ua ≡ unset_node.ua
      → From (NodeIs J) i ss val
      → AllBelow i g.nodes
      → read_nodes J val (length ss) i n g
        ≡ ok (record g { nodes = g.nodes ++ numbered i (map node_of ss) })
  unfolding read_nodes show_node
  read_nodes_lem val [] i n g fresh are below =
      ap (λ m. ok (record g { nodes = m })) (sym (append-nil g.nodes))
  read_nodes_lem val (s ∷ ss) i n g fresh are below =
      let (here, rest) = From-rest (NodeIs J) i s ss val are in
      let inserted = insert_at_end i (node_of s) g.nodes below in
      let m = g.nodes ++ ((i, node_of s) ∷ []) in
      rw (read_node_lem s n (J.array_get_idx val i) fresh here, inserted)
        (read_nodes_lem val ss (i + 1) (node_of s) (record g { nodes = m }) refl rest
            (AllBelow-append i (node_of s) g.nodes below)
          ∙ ap (λ m. ok (record g { nodes = m }))
              (append_assoc g.nodes ((i, node_of s) ∷ []) (numbered (i + 1) (map node_of ss))))

  nodes_field_lem :
      (ss : List NodeSettings) (v : J.Ptr) (g : Group)
      → g.nodes ≡ []
      → J.get_type v ≡ array_type
      → ArrayOf J (NodeIs J) ss v
      → group_field J g (lit "nodes") v
        ≡ ok (next (record g { nodes = numbered 0 (map node_of ss) }))
  unfolding group_field group_nodes strncmp_is_zero
  nodes_field_lem ss v g empty array are =
      let read =
        read_nodes_lem v ss 0 unset_node g refl (ArrayOf-From (NodeIs J) ss v are) (rw empty _) in
      rw (array, group_nodes, are.0, read, empty) refl

  group_fields_all :
      (fs : List Setting) (ms : List (Bytes × J.Ptr)) (g : Group)
      → SettingsAre J fs ms
      → group_fields J g ms ≡ ok (pos 0, set_all fs g)
  unfolding group_fields
  group_fields_all fs ms g h =
      ap (group_fields J g) (sym (append-nil ms)) ∙ group_fields_lem fs ms [] g h

  -- The group of an object that states its settings.
  pub make_group_lem :
      (s : GroupSettings) (p : J.Ptr)
      → GroupIs J s p
      → make_group J p unset_group ≡ ok (pos 0, group_of s)
  unfolding make_group group_fields
  make_group_lem s p (is, front, back, v, e, before, after, array, nodes) =
      let g = set_all s.before unset_group in
      let field = nodes_field_lem s.nodes v g (set_all-nodes s.before unset_group) array nodes in
      ap (group_fields J unset_group) e
      ∙ (group_fields_lem s.before front ((lit "nodes", v) ∷ back) unset_group before
          ∙ rw field (
              group_fields_all s.after back (record g { nodes = numbered 0 (map node_of s.nodes) })
                after))
