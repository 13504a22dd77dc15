-- ===== src/Server/Calls.antt =====
-- The calls of the library that `main` makes on the server, in order.
use factory_thing.Base.{ℕ, List, [], ◌∷◌}
use factory_thing.CString.Defs.{Bytes, lit}
use factory_thing.Server.Defs.{
  AddNode, add_node, ServerId, nodeid_string, own, object, objects_folder, demoid, scalarid,
  depthid, first_nodes, type_nodes, depth_nodes, method_nodes, lepton_folders, lepton_nodes,
}
use factory_thing.Server.Certificate.{ByteString}

pub data ServerCall : Type 0 where
  -- UA_Server_new, with the certificate of the configuration
  server_new : ByteString → ServerCall
  -- UA_Server_add…Node
  added : AddNode → ServerCall
  -- UA_Server_addReference, from one node to another
  add_reference : ServerId → ServerId → ServerCall
  write_display_name : ServerId → Bytes → ServerCall
  -- UA_Server_run, which returns when a signal has come, and UA_Server_delete
  run delete : ServerCall

-- These nodes are added, and then the calls follow.
unfoldable pub adds : List AddNode → List ServerCall → List ServerCall
adds [] calls = calls
adds (n ∷ ns) calls = added n ∷ adds ns calls

abbrev pub the_answer : ServerId
the_answer = nodeid_string 1 (lit "the.answer")

-- From the references to "the.answer" on.
unfoldable pub last_calls : List ServerCall
unfolding adds lepton_nodes
last_calls =
    add_reference (own demoid) the_answer
    ∷ add_reference (own scalarid) the_answer
    ∷ write_display_name objects_folder (lit "Objects")
    ∷ adds method_nodes (adds lepton_folders (adds (lepton_nodes 4 1) (run ∷ delete ∷ [])))

unfoldable pub server_calls : ByteString → (ℕ → Bytes) → ℕ → ℕ → List ServerCall
unfolding adds type_nodes depth_nodes last_calls
server_calls certificate type_name variant diagnosticinfo =
    server_new certificate
    ∷ adds first_nodes (
        adds (type_nodes type_name variant diagnosticinfo diagnosticinfo 0 51000) (
          added (add_node object (own depthid) (own demoid) (lit "DepthDemo"))
          ∷ adds (depth_nodes 20 1) last_calls))
