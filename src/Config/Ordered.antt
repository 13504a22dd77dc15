-- ===== src/Config/Ordered.antt =====
-- The maps that the configuration is read into are in the order of their keys.
use factory_thing.Base.{
  Run-cases, ℕ, zero, suc, ◌+◌, ◌≡◌, inl, inr, refl, subst, List, [], ◌∷◌, arith, ◌||◌,
  if◌then◌else◌, Bool-cases, ok, need, bind-inv, ok-injective,
}
use factory_thing.CString.Defs.{Bytes, lit, matches}
use factory_thing.Int.{ℤ}
use factory_thing.Json.{JsonType, object_type, JsonLib}
use factory_thing.Config.Defs.{Node, unset_node, Group, unset_group, Map, insert}
use factory_thing.Config.Maps.{IsOrdered, insert-IsOrdered}
use factory_thing.Config.Group.{
  Step, next, stop, after_step, read_node, show_node, dup, read_nodes, group_nodes, group_field,
  group_fields, make_group,
}
use factory_thing.Config.Load.{
  go, run, load_group, load_groups, load_map, load_device, load_server, load_document, show_groups,
  section, System, Loaded, copy, folder_of, config_path, read_file, load, config,
}
use factory_thing.Config.Bounds.{Outcome-inv, go-injective, run-eq-go, section-keeps}

module _ (J : JsonLib) where
  read_nodes-IsOrdered :
      (val : J.Ptr) (rounds i : ℕ) (n : Node) (g : Group) {g1 : Group}
      → IsOrdered g.nodes
      → read_nodes J val rounds i n g ≡ ok g1
      → IsOrdered g1.nodes
  unfolding read_nodes
  read_nodes-IsOrdered val zero i n g ordered h = rw (← ok-injective h) ordered
  read_nodes-IsOrdered val (suc rounds) i n g ordered h =
      let (n1, made, h1) = bind-inv (read_node J n (J.array_get_idx val i)) _ h in
      let (u, shown, h2) = bind-inv (show_node J n1) _ h1 in
      read_nodes-IsOrdered val rounds (i + 1) n1 _ (insert-IsOrdered i n1 g.nodes ordered) h2

  group_nodes-IsOrdered :
      (g : Group) (val : J.Ptr) {g1 : Group}
      → IsOrdered g.nodes
      → group_nodes J g val ≡ ok g1
      → IsOrdered g1.nodes
  unfolding group_nodes
  group_nodes-IsOrdered g val {g1} ordered h =
      ground (arith, read_nodes-IsOrdered val (J.array_length val) 0 unset_node g {g1 = g1} ordered)

  -- The group of a step.
  abbrev stepped : Step → Group
  stepped (next g) = g
  stepped (stop g) = g

  group_field-IsOrdered :
      (g : Group) (key : Bytes) (v : J.Ptr) {s : Step}
      → IsOrdered g.nodes
      → group_field J g key v ≡ ok s
      → IsOrdered (stepped s).nodes
  unfolding group_field dup
  group_field-IsOrdered g key v {s} ordered h = elim (Run-cases (group_nodes J g v)) [
    | inl (g2, e) ↦ let kept = group_nodes-IsOrdered g v ordered e in ground arith
    | inr (why, e) ↦ ground arith
  ]

  group_fields-IsOrdered :
      (g : Group) (members : List (Bytes × J.Ptr)) {status : ℤ} {g1 : Group}
      → IsOrdered g.nodes
      → group_fields J g members ≡ ok (status, g1)
      → IsOrdered g1.nodes
  unfolding group_fields
  group_fields-IsOrdered g [] ordered h = subst (λ r. IsOrdered r.1.nodes) (ok-injective h) ordered
  group_fields-IsOrdered g ((key, v) ∷ rest) {status} {g1} ordered h =
      let (s, e, h1) = bind-inv (group_field J g key v) _ h in
      by_step s (group_field-IsOrdered g key v ordered e)
        (λ g2 kept. group_fields-IsOrdered g2 rest kept) h1
    where
      by_step :
          (s : Step)
          → IsOrdered (stepped s).nodes
          → ((g2 : Group)
              → IsOrdered g2.nodes
              → group_fields J g2 rest ≡ ok (status, g1)
              → IsOrdered g1.nodes)
          → after_step (λ g2. group_fields J g2 rest) s ≡ ok (status, g1)
          → IsOrdered g1.nodes
      by_step (next g2) kept on h1 = on g2 kept h1
      by_step (stop g2) kept on h1 = subst (λ r. IsOrdered r.1.nodes) (ok-injective h1) kept

  -- The keys of the nodes are in order.
  pub make_group-IsOrdered :
      (r : J.Ptr) {status : ℤ} {g : Group}
      → make_group J r unset_group ≡ ok (status, g)
      → IsOrdered g.nodes
  unfolding make_group
  make_group-IsOrdered r h = group_fields-IsOrdered unset_group (J.entries r) _ h

-- The nodes of each group are in the order of their keys.
abbrev pub NodesOrdered : Map Group → Type 0
NodesOrdered [] = Unit
NodesOrdered ((k, g) ∷ groups) = IsOrdered g.nodes × NodesOrdered groups

insert-NodesOrdered :
    (k : ℕ) (g : Group) (groups : Map Group)
    → IsOrdered g.nodes
    → NodesOrdered groups
    → NodesOrdered (insert k g groups)
unfolding insert
insert-NodesOrdered k g [] one all = (one, _)
insert-NodesOrdered k g ((j, h) ∷ groups) one (here, all) =
    ground (arith, insert-NodesOrdered k g groups one all)

module _ (J : JsonLib) (os : System) where
  load_group-NodesOrdered :
      (i : ℕ) (n : J.Ptr) (groups : Map Group) {groups1 : Map Group}
      → NodesOrdered groups
      → load_group J os i n groups ≡ go groups1
      → NodesOrdered groups1
  unfolding load_group
  load_group-NodesOrdered i n groups {groups1} all h = by_type (J.get_type n) refl
    where
      by_type : (t : JsonType) → J.get_type n ≡ t → NodesOrdered groups1
      by_type object_type is =
          let ((status, g), e, h1) =
            Outcome-inv (run (make_group J n unset_group)) _ (rw (is, load_group) at h) in
          subst NodesOrdered (go-injective h1) (
            insert-NodesOrdered i g groups
              (make_group-IsOrdered J n (run-eq-go (make_group J n unset_group) e)) all)
      by_type t is = subst NodesOrdered (go-injective (rw (is, load_group) at h)) all

  load_groups-NodesOrdered :
      (o : J.Ptr) (rounds i : ℕ) (groups : Map Group) {groups1 : Map Group}
      → NodesOrdered groups
      → load_groups J os o rounds i groups ≡ go groups1
      → NodesOrdered groups1
  unfolding load_groups
  load_groups-NodesOrdered o zero i groups all h = subst NodesOrdered (go-injective h) all
  load_groups-NodesOrdered o (suc rounds) i groups all h =
      let (groups2, e, h1) = Outcome-inv (load_group J os i (J.array_get_idx o i) groups) _ h in
      load_groups-NodesOrdered o rounds (i + 1) groups2
        (load_group-NodesOrdered i (J.array_get_idx o i) groups all e) h1

  load_document-NodesOrdered :
      (doc : J.Ptr) (l : Loaded) {l1 : Loaded}
      → NodesOrdered l.groups
      → load_document J os doc l ≡ go l1
      → NodesOrdered l1.groups
  unfolding load_document load_map
  load_document-NodesOrdered doc l all h =
      let c = l.configuration in
      let (c1, e1, h1) =
        Outcome-inv (section J os doc (lit "device-configuration") (load_device J os) c) _ h in
      let (c2, e2, h2) =
        Outcome-inv (section J os doc (lit "server-configuration") (load_server J os) c1) _ h1 in
      let (m, e3, h3) =
        Outcome-inv (section J os doc (lit "node-map") (load_map J os) l.groups) _ h2 in
      let (u, e4, h4) = Outcome-inv (show_groups J os m) _ h3 in
      subst (λ x. NodesOrdered x.groups) (go-injective h4)
        (section-keeps J os NodesOrdered doc (lit "node-map") (load_map J os) l.groups
          (λ o groups made. load_groups-NodesOrdered o (J.array_length o) 0 l.groups all made) all
          e3)

  load-NodesOrdered :
      (l : Loaded) {l1 : Loaded}
      → NodesOrdered l.groups
      → load J os l ≡ go l1
      → NodesOrdered l1.groups
  unfolding load
  load-NodesOrdered l all h =
      let fn = l.configuration.config_file in
      let (exe, e1, h1) = Outcome-inv (copy 256 os.exe) _ h in
      let (folder, e2, h2) = Outcome-inv (run (need (folder_of exe))) _ h1 in
      let (kept, e3, h3) = Outcome-inv (copy 128 folder) _ h2 in
      let (path, e4, h4) = Outcome-inv (config_path J os kept fn) _ h3 in
      let (content, e5, h5) = Outcome-inv (read_file J os path) _ h4 in
      load_document-NodesOrdered (J.parse content) _ all h5

  -- When `config` returns 0, having started from no groups, the nodes of each group are in the order
  -- of their keys.
  pub config-NodesOrdered :
      (argv : List Bytes) (l : Loaded) {l1 : Loaded}
      → NodesOrdered l.groups
      → config J os argv l ≡ go l1
      → NodesOrdered l1.groups
  unfolding config
  config-NodesOrdered (exe ∷ flag ∷ file ∷ []) l all h =
      elim (Bool-cases (matches flag (lit "-c") || matches flag (lit "--config"))) [
        | inl e ↦
            let (name, e1, h1) = Outcome-inv (copy 128 file) _ (rw (e, if◌then◌else◌) at h) in
            load-NodesOrdered
              (record l { configuration = record l.configuration { config_file = name } }) all h1
        | inr e ↦ absurd (ground arith)
      ]
  config-NodesOrdered _ l all h = cc
