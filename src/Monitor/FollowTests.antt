-- ===== src/Monitor/FollowTests.antt =====
-- Three groups, one of each kind and one that is not enabled, and how they are followed.
use factory_thing.Base.{◌+◌, ◌≡◌, refl, Bool, true, false, some, [], ◌∷◌, All, length, ok}
use factory_thing.CString.Defs.{
  Bytes, lit, strncmp_is_zero, equal, atoi, atoi_signed, skip_space, digits_onto,
}
use factory_thing.Int.{pos}
use factory_thing.Config.Defs.{
  Configuration, zero_configuration, Group, unset_group, Node, unset_node, Map,
}
use factory_thing.Config.Modes.{event, poll, get_monitor_mode}
use factory_thing.NodeId.Defs.{split_onto, scan, scan_pieces, get_ua_node_id, numeric_type, numeric}
use factory_thing.Monitor.Start.{
  Followed, resolve_node, resolve_nodes, visit, visit_groups, threads, monitor_start, opcua_poll,
}
use factory_thing.Monitor.Follow.{Taken, count, is_enabled}
use factory_thing.Monitor.Threads.{follow_each}

abbrev alloc : Bytes → Bytes
alloc s = s

abbrev c : Configuration
c = record zero_configuration { asyc_request_supported = true }

abbrev node : Node
node = record unset_node {
  id = some (lit "ns=1;i=5");
  topic = some (lit "t");
  alias = some (lit "a");
}

abbrev resolved_node : Node
resolved_node = record node {
  ua = record {
    namespace_index = some 1;
    identifier_type = some numeric_type;
    identifier = some (numeric 5);
  };
}

abbrev group : Bytes → Bool → Node → Group
group method enabled d = record unset_group {
  name = some (lit "g");
  method = some method;
  interval_usec = some (pos 1000);
  enable = some enabled;
  mqtt = some true;
  tcp = some false;
  nodes = (0, d) ∷ [];
}

abbrev groups : Map Group
groups =
    (0, group (lit "event") true node)
    ∷ (1, group (lit "poll") true node)
    ∷ (2, group (lit "poll") false node)
    ∷ []

abbrev started : Followed
started = record {
  groups =
      (0, group (lit "event") true resolved_node)
      ∷ (1, group (lit "poll") true node)
      ∷ (2, group (lit "poll") false node)
      ∷ [];
  followed = (0, group (lit "event") true resolved_node) ∷ [];
}

abbrev polled : Followed
polled = record {
  groups =
      (0, group (lit "event") true resolved_node)
      ∷ (1, group (lit "poll") true resolved_node)
      ∷ (2, group (lit "poll") false node)
      ∷ [];
  followed = (1, group (lit "poll") true resolved_node) ∷ [];
}

start_test : monitor_start alloc c groups ≡ ok started
unfolding monitor_start visit_groups visit resolve_nodes resolve_node get_ua_node_id scan_pieces
    scan split_onto equal atoi atoi_signed skip_space digits_onto get_monitor_mode strncmp_is_zero
start_test = refl

poll_test : opcua_poll alloc c started.groups ≡ ok polled
unfolding opcua_poll threads visit_groups visit resolve_nodes resolve_node get_ua_node_id
    scan_pieces scan split_onto equal atoi atoi_signed skip_space digits_onto get_monitor_mode
    strncmp_is_zero
poll_test = refl

follow_each_example :
    All (λ (k, g). Taken alloc event g) started.followed
    × All (λ (k, g). Taken alloc poll g) polled.followed
    × (length started.followed + length polled.followed ≡ count (λ g. is_enabled g.enable) groups)
follow_each_example = follow_each alloc c groups refl start_test poll_test
