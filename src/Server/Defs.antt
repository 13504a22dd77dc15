-- ===== src/Server/Defs.antt =====
-- The nodes that `main` adds to the server, in order.
use factory_thing.Base.{ℕ, zero, suc, ◌+◌, ◌-◌, ◌*◌, ◌||◌, List, [], ◌∷◌, ◌++◌, ◌==◌, if◌then◌else◌}
use factory_thing.CString.Defs.{Bytes, lit, decimal}
use factory_thing.Lepton.Defs.{baseid, boxesid, spotsid}

-- UA_NodeId, by its constructor macro: the namespace, and the identifier.
pub data ServerId : Type 0 where
  nodeid_null : ServerId
  nodeid_numeric : ℕ → ℕ → ServerId
  nodeid_string : ℕ → Bytes → ServerId

-- What a node is; methods are added if the library has them, as it is taken to.
pub data NodeClass : Type 0 where
  object variable : NodeClass
  read_time_data read_lepton_data : NodeClass
  hello_world_method noarg_method outarg_method : NodeClass

-- A node, with its parent and its qualified name. Left out is the kind of the reference to the
-- parent; the attributes and values of the variables are those of Attributes.
pub record AddNode : Type 0 where
  pub class : NodeClass
  pub id : ServerId
  pub parent : ServerId
  pub name : Bytes

abbrev pub objects_folder : ServerId
objects_folder = nodeid_numeric 0 85

abbrev pub own : ℕ → ServerId
own n = nodeid_numeric 1 n

abbrev pub demoid : ℕ
demoid = 50000

abbrev pub scalarid : ℕ
scalarid = 50001

abbrev pub arrayid : ℕ
arrayid = 50002

abbrev pub matrixid : ℕ
matrixid = 50003

abbrev pub depthid : ℕ
depthid = 50004

abbrev pub leptonid : ℕ
leptonid = baseid + 0

abbrev pub snapshotsid : ℕ
snapshotsid = baseid + 1000

abbrev pub add_node : NodeClass → ServerId → ServerId → Bytes → AddNode
add_node class id parent name = record { class = class; id = id; parent = parent; name = name }

-- What stands before the loop over the types.
abbrev pub first_nodes : List AddNode
first_nodes =
    add_node variable (nodeid_string 1 (lit "the.answer")) objects_folder (lit "the answer")
    ∷ add_node read_time_data nodeid_null objects_folder (lit "current time")
    ∷ add_node hello_world_method (own 62541) objects_folder (lit "hello_world")
    ∷ add_node object (own demoid) objects_folder (lit "Demo")
    ∷ add_node object (own scalarid) (own demoid) (lit "Scalar")
    ∷ add_node object (own arrayid) (own demoid) (lit "Array")
    ∷ add_node object (own matrixid) (own demoid) (lit "Matrix")
    ∷ []

-- `type_name` gives the names of UA_TYPES; `variant` and `diagnosticinfo` are its indices of these
-- two types, which the build of the library generates.
module _ (type_name : ℕ → Bytes) (variant diagnosticinfo : ℕ) where
  -- The loop over the types from `type` on, with so many rounds left; `id` runs on.
  unfoldable pub type_nodes : ℕ → ℕ → ℕ → List AddNode
  type_nodes zero type id = []
  type_nodes (suc rounds) type id =
      let skipped = type_nodes rounds (type + 1) id in
      let added = type_nodes rounds (type + 1) (id + 3) in
      if type == variant || type == diagnosticinfo
      then skipped
      else add_node variable (own (id + 1)) (own scalarid) (type_name type)
        ∷ add_node variable (own (id + 2)) (own arrayid) (type_name type)
        ∷ add_node variable (own (id + 3)) (own matrixid) (type_name type)
        ∷ added

-- for(i = 1; i <= 20; i++), from `i` on.
unfoldable pub depth_nodes : ℕ → ℕ → List AddNode
depth_nodes zero i = []
depth_nodes (suc rounds) i =
    add_node object (own (depthid + i)) (own (if i == 1 then depthid else depthid + i - 1))
      (lit "depth" ++ decimal i)
    ∷ depth_nodes rounds (i + 1)

abbrev pub method_nodes : List AddNode
method_nodes =
    add_node noarg_method (own 60000) (own demoid) (lit "noarg")
    ∷ add_node noarg_method (own 60001) (own demoid) (lit "noarg")
    ∷ add_node outarg_method (own 60002) (own demoid) (lit "outarg")
    ∷ add_node outarg_method (own 60003) (own demoid) (lit "inoutarg")
    ∷ []

abbrev pub lepton_folders : List AddNode
lepton_folders =
    add_node object (own leptonid) objects_folder (lit "Lepton")
    ∷ add_node variable (own snapshotsid) (own leptonid) (lit "Metric")
    ∷ add_node object (own boxesid) (own leptonid) (lit "Boxes")
    ∷ add_node object (own spotsid) (own leptonid) (lit "Spots")
    ∷ []

-- One folder of four fields; `i` is its name.
abbrev pub item_nodes : ℕ → ℕ → ℕ → List AddNode
item_nodes folder pid i =
    add_node object (own pid) (own folder) (decimal i)
    ∷ add_node read_lepton_data (own (pid + 1)) (own pid) (lit "Min")
    ∷ add_node read_lepton_data (own (pid + 2)) (own pid) (lit "Max")
    ∷ add_node read_lepton_data (own (pid + 3)) (own pid) (lit "Average")
    ∷ add_node read_lepton_data (own (pid + 4)) (own pid) (lit "Valid")
    ∷ []

-- for(int i = 1; i < 5; i++), from `i` on.
unfoldable pub lepton_nodes : ℕ → ℕ → List AddNode
lepton_nodes zero i = []
lepton_nodes (suc rounds) i =
    item_nodes boxesid (boxesid + i * 100) i
    ++ (item_nodes spotsid (spotsid + i * 100) i ++ lepton_nodes rounds (i + 1))

-- All nodes that `main` adds.
unfoldable pub server_nodes : (ℕ → Bytes) → ℕ → ℕ → List AddNode
server_nodes type_name variant diagnosticinfo =
    first_nodes
    ++ (type_nodes type_name variant diagnosticinfo diagnosticinfo 0 51000
        ++ (add_node object (own depthid) (own demoid) (lit "DepthDemo")
            ∷ (depth_nodes 20 1 ++ (method_nodes ++ (lepton_folders ++ lepton_nodes 4 1)))))
