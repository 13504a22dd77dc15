-- ===== src/Bridge/Whole.antt =====
-- From a configuration file that states its settings to the messages of the threads that poll.
use factory_thing.Base.{ℕ, ◌<◌, ◌≡◌, ◌≢◌, ◌⊎◌, [], ◌++◌, All}
use factory_thing.CString.Defs.{Bytes, lit, decimal}
use factory_thing.NodeId.Defs.{uint16_values, uint32_values}
use factory_thing.NodeId.Split.{Lacks}
use factory_thing.NodeId.Text.{ns_text}
use factory_thing.Config.Nodes.{Given}
use factory_thing.Config.Meaning.{GroupSettings, group_of}

-- The text of a node id: "ns=N;i=I", or "ns=N;s=NAME" without a further ';'.
abbrev pub IsId : Bytes → Type 0
IsId id =
    ((ns : ℕ) × (i : ℕ) × (ns < uint16_values)
      × (i < uint32_values)
      × (id ≡ ns_text ns (lit "i=" ++ decimal i)))
    ⊎ ((ns : ℕ) × (name : Bytes) × (ns < uint16_values)
        × (name ≢ [])
        × Lacks b';' name
        × (id ≡ ns_text ns (lit "s=" ++ name)))

-- A group that says whether it is enabled, and whose nodes have such ids.
abbrev pub Addressed : GroupSettings → Type 0
Addressed s = Given (group_of s).enable × All (λ n. IsId n.id) s.nodes
