-- ===== src/Bridge/Reads.antt =====
-- When monitor_start and opcua_poll get through the groups that config has loaded.
use factory_thing.Base.{
  ℕ, ◌≡◌, ◌∙◌, refl, Bool, true, false, Option, none, some, [], ◌∷◌, if◌then◌else◌, arith, ok,
  Bool-cases, inl, inr,
}
use factory_thing.CString.Defs.{Bytes}
use factory_thing.NodeId.Defs.{get_ua_node_id}
use factory_thing.Config.Defs.{Configuration, Node, Group, Map}
use factory_thing.Config.Modes.{MonitorMode, event, poll, get_monitor_mode}
use factory_thing.Config.Nodes.{Given, HasStrings, NodesComplete}
use factory_thing.Config.Bounds.{FitsArrays, Complete, AllComplete}
use factory_thing.Bridge.Defs.{initial}
use factory_thing.Monitor.Pairs.{Returns}
use factory_thing.Monitor.Start.{
  same_mode, Followed, resolve_node, resolve_nodes, visit, visit_groups, threads, discards,
  monitor_start, opcua_poll,
}

pub Given-some {ℓ} : {A : Type ℓ} {o : Option A} → Given o → (a : A) × (o ≡ some a)
Given-some {o = none} never = absurd never
Given-some {o = some a} h = (a, refl)

module _ (alloc : Bytes → Bytes) where
  -- getUA_NodeID gets through the id of each node.
  abbrev pub AllParse : Map Node → Type 0
  AllParse [] = Unit
  AllParse ((k, d) ∷ nodes) =
      ((id : Bytes) → d.id ≡ some id → Returns (get_ua_node_id alloc id d.ua)) × AllParse nodes

  -- If the group is of the mode, its flag `enable` is set, and if that is true, its ids parse.
  abbrev pub Readable : MonitorMode → Group → Type 0
  Readable mode g =
      (method : Bytes)
      → g.method ≡ some method
      → same_mode (get_monitor_mode method) mode ≡ true
      → (enable : Bool) × (g.enable ≡ some enable) × (enable ≡ true → AllParse g.nodes)

  abbrev pub AllReadable : MonitorMode → Map Group → Type 0
  AllReadable mode [] = Unit
  AllReadable mode ((k, g) ∷ groups) = Readable mode g × AllReadable mode groups

  resolve_node-Returns :
      (d : Node)
      → HasStrings d
      → ((id : Bytes) → d.id ≡ some id → Returns (get_ua_node_id alloc id d.ua))
      → Returns (resolve_node alloc d)
  unfolding resolve_node
  resolve_node-Returns d (has_id, has_topic, has_alias) parses =
      let (id, e1) = Given-some has_id in
      let (topic, e2) = Given-some has_topic in
      let (alias, e3) = Given-some has_alias in
      let (ua, e4) = parses id e1 in (record d { ua = ua }, rw (e1, e2, e3, e4) refl)

  resolve_nodes-Returns :
      (nodes : Map Node)
      → NodesComplete nodes
      → AllParse nodes
      → Returns (resolve_nodes alloc nodes)
  unfolding resolve_nodes
  resolve_nodes-Returns [] whole parse = ([], refl)
  resolve_nodes-Returns ((k, d) ∷ nodes) (one, whole) (parses, parse) =
      let (d1, e1) = resolve_node-Returns d one parses in
      let (rest, e2) = resolve_nodes-Returns nodes whole parse in ((k, d1) ∷ rest, rw (e1, e2) refl)

  -- The method and the flag stay.
  abbrev Visited : MonitorMode → Group → Type 0
  Visited mode g =
      (b : Bool) × (g1 : Group) × (visit alloc mode g ≡ ok (b, g1))
      × (g1.method ≡ g.method)
      × (g1.enable ≡ g.enable)

  visit-Visited : (mode : MonitorMode) (g : Group) → Complete g → Readable mode g → Visited mode g
  unfolding visit
  visit-Visited mode g whole readable =
      let (method, e1) = Given-some whole.method in
      elim (Bool-cases (same_mode (get_monitor_mode method) mode)) [
        | inr other ↦ (false, g, rw (e1, other) refl, refl, refl)
        | inl same ↦
            let (name, e2) = Given-some whole.name in
            let (interval, e3) = Given-some whole.interval_usec in
            let (mqtt, e4) = Given-some whole.mqtt in
            let (tcp, e5) = Given-some whole.tcp in
            let (enable, e6, parse) = readable method e1 same in
            elim (Bool-cases enable) [
              | inr off ↦ (false, g, rw (e1, same, e2, e6, e3, e4, e5, off) refl, refl, refl)
              | inl on ↦
                  let (nodes, e7) = resolve_nodes-Returns g.nodes whole.nodes (parse on) in
                  (
                    true,
                    record g { nodes = nodes },
                    rw (e1, same, e2, e6, e3, e4, e5, on, e7) refl,
                    refl,
                    refl,
                  )
            ]
      ]

  -- What visit_groups makes of a group that it has visited, and the groups behind it.
  abbrev onto : ℕ → Bool → Group → Followed → Followed
  onto k b g rest = record {
    groups = (k, g) ∷ rest.groups;
    followed = if b then (k, g) ∷ rest.followed else rest.followed;
  }

  abbrev untouched : Map Group → Followed
  untouched groups = record { groups = groups; followed = [] }

  visit_groups-Returns :
      (mode : MonitorMode) (groups : Map Group)
      → AllComplete groups
      → AllReadable mode groups
      → Returns (visit_groups alloc mode groups)
  unfolding visit_groups
  visit_groups-Returns mode [] whole readable = (_, refl)
  visit_groups-Returns mode ((k, g) ∷ groups) (one, whole) (reads, readable) =
      let (b, g1, e1, _, _) = visit-Visited mode g one reads in
      let (rest, e2) = visit_groups-Returns mode groups whole readable in
      (onto k b g1 rest, rw (e1, e2) refl)

  -- monitor_start gets through groups that are complete, if it can read those of its mode.
  pub monitor_start-Returns :
      (c : Configuration) (groups : Map Group)
      → AllComplete groups
      → AllReadable event groups
      → Returns (monitor_start alloc c groups)
  unfolding monitor_start
  monitor_start-Returns c groups whole readable = elim (Bool-cases (discards alloc c poll)) [
    | inl e ↦ (untouched groups, rw e refl)
    | inr e ↦ let (r, e1) = visit_groups-Returns event groups whole readable in (r, rw e e1)
  ]

  -- The groups that are visited have threads made for them.
  visit_groups-threads :
      (groups : Map Group)
      → AllComplete groups
      → AllReadable poll groups
      → (r : Followed) × (visit_groups alloc poll groups ≡ ok r) × Returns (threads alloc r.groups)
  unfolding visit_groups threads
  visit_groups-threads [] whole readable = (_, refl, (_, refl))
  visit_groups-threads ((k, g) ∷ groups) (one, whole) (reads, readable) =
      let (b, g1, e1, same_method, same_enable) = visit-Visited poll g one reads in
      let (rest, e2, (made, e3)) = visit_groups-threads groups whole readable in
      let (method, e4) = Given-some one.method in
      let e5 = same_method ∙ e4 in
      elim (Bool-cases (same_mode (get_monitor_mode method) poll)) [
        | inl is_poll ↦
            let (enable, e6, _) = reads method e4 is_poll in
            (
              onto k b g1 rest,
              rw (e1, e2) refl,
              (if enable then (k, g1) ∷ made else made, rw (e5, e3, is_poll, same_enable, e6) refl),
            )
        | inr other ↦ (onto k b g1 rest, rw (e1, e2) refl, (made, rw (e5, e3, other) refl))
      ]

  -- opcua_poll gets through groups that are complete, if it can read those of its mode.
  pub opcua_poll-Returns :
      (c : Configuration) (groups : Map Group)
      → AllComplete groups
      → AllReadable poll groups
      → Returns (opcua_poll alloc c groups)
  unfolding opcua_poll
  opcua_poll-Returns c groups whole readable = elim (Bool-cases (discards alloc c event)) [
    | inl e ↦ (untouched groups, rw e refl)
    | inr e ↦
        let (r, e1, (made, e2)) = visit_groups-threads groups whole readable in
        (record { groups = r.groups; followed = made }, rw (e, e1, e2) refl)
  ]

-- The zeros that the globals start with fit.
pub initial-FitsArrays : FitsArrays initial.configuration
initial-FitsArrays = record {
  config_file = ground arith;
  config_folder = ground arith;
  device_id = ground arith;
  ua_server_address = ground arith;
  method = ground arith;
  mqtt_brocker_ip = ground arith;
  topic_base = ground arith;
  tcp_brocker_ip = ground arith;
  amqp_ip = ground arith;
  amqp_topic_base = ground arith;
}
