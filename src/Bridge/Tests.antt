-- ===== src/Bridge/Tests.antt =====
-- A file with one group, a server that refuses its first request, and the theorems at them.
use factory_thing.Base.{
  ℕ, ◌≡◌, refl, true, some, [], ◌∷◌, arith, ltb, leb, length, if◌then◌else◌, ok,
}
use factory_thing.CString.Defs.{
  Bytes, strncmp_is_zero, equal, atoi, atoi_signed, skip_space, digits_onto,
}
use factory_thing.Int.{pos, negsuc}
use factory_thing.NodeId.Defs.{
  UaNodeId, split_onto, scan, scan_pieces, get_ua_node_id, numeric_type, numeric,
}
use factory_thing.Config.Defs.{Group, Map}
use factory_thing.Config.Sample.{node0, node1, group0, expected}
use factory_thing.Monitor.Value.{int32, Members}
use factory_thing.Monitor.Start.{
  Followed, resolve_node, resolve_nodes, visit, visit_groups, threads, opcua_poll,
}
use factory_thing.Client.Defs.{new, Server, ClientState}
use factory_thing.Client.Start.{SignalBy}
use factory_thing.Client.Poll.{Device}
use factory_thing.Config.Modes.{get_monitor_mode}

abbrev server : Server
server = record {
  status = λ calls. if ltb (length calls) 6 then 1 else 0;
  be_stop = λ calls. leb 40 (length calls);
}

abbrev pub alloc : Bytes → Bytes
alloc s = s

abbrev ua : ℕ → UaNodeId
ua n = record {
  namespace_index = some 2;
  identifier_type = some numeric_type;
  identifier = some (numeric n);
}

abbrev polled_groups : Map Group
polled_groups =
    (
      0,
      record group0 {
        nodes = (0, record node0 { ua = ua 5 }) ∷ (1, record node1 { ua = ua 6 }) ∷ [];
      },
    )
    ∷ []

abbrev polled : Followed
polled = record { groups = polled_groups; followed = polled_groups }

poll_test : opcua_poll alloc expected.configuration expected.groups ≡ ok polled
unfolding opcua_poll threads visit_groups visit resolve_nodes resolve_node get_ua_node_id
    scan_pieces scan split_onto equal atoi atoi_signed skip_space digits_onto get_monitor_mode
    strncmp_is_zero
poll_test = refl

abbrev pub names : Members ℕ → Bytes
names [] = []
names ((key, _) ∷ ms) = key

abbrev device : Device ℕ
device = record { server = server; read = λ calls. some (int32 (negsuc 4)); time = λ calls. pos 77 }

abbrev pub client : ClientState
client = record { calls = new ∷ []; live = true }

-- A server that lets every client connect.
abbrev pub open_device : Device ℕ
open_device = record device {
  server = record { status = λ calls. 0; be_stop = λ calls. leb 40 (length calls) };
}

pub open_device-SignalBy : SignalBy open_device.server 40
open_device-SignalBy calls h = ground arith
