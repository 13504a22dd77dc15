-- ===== src/Monitor/Start.antt =====
-- `monitor_start` and `opcua_poll`: which groups are followed, and by which of the two.
use factory_thing.Base.{Bool, true, false, not, ◌&&◌, [], ◌∷◌, if◌then◌else◌, Run, ok, ◌>>=◌, need}
use factory_thing.CString.Defs.{Bytes}
use factory_thing.Config.Defs.{Configuration, Group, Node, Map}
use factory_thing.Config.Modes.{MonitorMode, event, poll, get_monitor_mode}
use factory_thing.NodeId.Defs.{get_ua_node_id}

abbrev pub same_mode : MonitorMode → MonitorMode → Bool
same_mode event event = true
same_mode event poll = false
same_mode poll event = false
same_mode poll poll = true

-- The map behind a loop, and the groups that the loop has gone into, in order.
pub record Followed : Type 0 where
  pub groups : Map Group
  pub followed : Map Group

-- `alloc` is UA_STRING_ALLOC.
module _ (alloc : Bytes → Bytes) where
  -- The body of the inner loops: the members printed are read, and `ua` is set from `id`.
  unfoldable pub resolve_node : Node → Run Node
  resolve_node d = do
    id ← need d.id
    topic ← need d.topic
    alias ← need d.alias
    ua ← get_ua_node_id alloc id d.ua
    ok (record d { ua = ua })

  unfoldable pub resolve_nodes : Map Node → Run (Map Node)
  unfolding resolve_node
  resolve_nodes [] = ok []
  resolve_nodes ((k, d) ∷ nodes) = do
    d1 ← resolve_node d
    rest ← resolve_nodes nodes
    ok ((k, d1) ∷ rest)

  -- A group of the mode: what is printed of it is read, and its nodes are resolved if it is enabled.
  -- The flag says whether they are.
  unfoldable pub visit : MonitorMode → Group → Run (Bool × Group)
  unfolding resolve_nodes
  visit mode g = do
    method ← need g.method
    if same_mode (get_monitor_mode method) mode
        then (do
          name ← need g.name
          enable ← need g.enable
          interval ← need g.interval_usec
          mqtt ← need g.mqtt
          tcp ← need g.tcp
          if enable
              then (do nodes ← resolve_nodes g.nodes; ok (true, record g { nodes = nodes }))
              else ok (false, g))
        else ok (false, g)

  -- The loop over the groups, of both functions.
  unfoldable pub visit_groups : MonitorMode → Map Group → Run Followed
  unfolding visit
  visit_groups mode [] = ok (record { groups = []; followed = [] })
  visit_groups mode ((k, g) ∷ groups) = do
    (in_mode, g1) ← visit mode g
    rest ← visit_groups mode groups
    let more = (k, g1) ∷ rest.followed
    ok (record {
      groups = (k, g1) ∷ rest.groups;
      followed = if in_mode then more else rest.followed;
    })

  -- The second loop of `opcua_poll`: the groups for which a thread is made.
  unfoldable pub threads : Map Group → Run (Map Group)
  threads [] = ok []
  threads ((k, g) ∷ groups) = do
    method ← need g.method
    rest ← threads groups
    if same_mode (get_monitor_mode method) poll
        then (do enable ← need g.enable; ok (if enable then (k, g) ∷ rest else rest))
        else ok rest

  module _ (c : Configuration) where
    -- Whether the function for `other` turns back at once: asynchronous requests are not supported
    -- and the method of the configuration is `mode`.
    abbrev pub discards : MonitorMode → Bool
    discards mode = not c.asyc_request_supported && same_mode (get_monitor_mode c.method) mode

    -- monitor_start(client): the groups of which all nodes are given to the server as monitored
    -- items, in order. That the server refuses an item is only printed.
    unfoldable pub monitor_start : Map Group → Run Followed
    unfolding visit_groups
    monitor_start groups =
        if discards poll
        then ok (record { groups = groups; followed = [] })
        else visit_groups event groups

    -- opcua_poll(client): the groups for which a thread runs `opcua_poll_group`.
    unfoldable pub opcua_poll : Map Group → Run Followed
    unfolding visit_groups threads
    opcua_poll groups =
        if discards event then ok (record { groups = groups; followed = [] }) else (do
          visited ← visit_groups poll groups
          polled ← threads visited.groups
          ok (record { groups = visited.groups; followed = polled }))
