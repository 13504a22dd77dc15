-- ===== src/Server/Handlers.antt =====
-- The nodes that `readLepton` serves.
use factory_thing.Base.{
  ℕ, ◌≡◌, refl, ap, sym, subst, ◌∙◌, Bool, true, false, List, [], ◌∷◌, ◌++◌, map, ◌==◌, All,
  if◌then◌else◌,
}
use factory_thing.CString.Defs.{Bytes}
use factory_thing.Lepton.Defs.{Lepton, read_lepton}
use factory_thing.Lepton.Read.{
  Kind, box, spot, Place, first, second, third, fourth, Field, min, max, avg, val, address,
}
use factory_thing.Server.Sources.{Meets, read_time, read_time-Meets, read_lepton-Meets}
use factory_thing.Server.Collect.{collect, collect-type_nodes}
use factory_thing.Server.Defs.{
  read_lepton_data, AddNode, ServerId, nodeid_null, nodeid_numeric, nodeid_string, depth_nodes,
  lepton_nodes, server_nodes,
}

abbrev pub numeric_part : ServerId → List ℕ
numeric_part nodeid_null = []
numeric_part (nodeid_numeric ns n) = n ∷ []
numeric_part (nodeid_string ns s) = []

-- The numeric identifiers of a node that `readLepton` reads.
abbrev pub lepton_id : AddNode → List ℕ
lepton_id n = elim n.class [ read_lepton_data ↦ numeric_part n.id | _ ↦ [] ]

abbrev pub lepton_ids : List AddNode → List ℕ
lepton_ids = collect lepton_id

abbrev pub Triple : Type 0
Triple = Kind × Place × Field

-- The fields in the order in which `main` adds them.
abbrev in_order : List Triple
in_order = at first ++ (at second ++ (at third ++ at fourth))
  where
    of : Kind → Place → List Triple
    of k p = (k, p, min) ∷ (k, p, max) ∷ (k, p, avg) ∷ (k, p, val) ∷ []

    at : Place → List Triple
    at p = of box p ++ of spot p

abbrev address_of : Triple → ℕ
address_of (k, p, f) = address k p f

abbrev pub occurs : ℕ → List ℕ → Bool
occurs n [] = false
occurs n (m ∷ ms) = if n == m then true else occurs n ms

occurs-address :
    (k : Kind) (p : Place) (f : Field) → occurs (address k p f) (map address_of in_order) ≡ true
occurs-address box first min = refl
occurs-address box first max = refl
occurs-address box first avg = refl
occurs-address box first val = refl
occurs-address box second min = refl
occurs-address box second max = refl
occurs-address box second avg = refl
occurs-address box second val = refl
occurs-address box third min = refl
occurs-address box third max = refl
occurs-address box third avg = refl
occurs-address box third val = refl
occurs-address box fourth min = refl
occurs-address box fourth max = refl
occurs-address box fourth avg = refl
occurs-address box fourth val = refl
occurs-address spot first min = refl
occurs-address spot first max = refl
occurs-address spot first avg = refl
occurs-address spot first val = refl
occurs-address spot second min = refl
occurs-address spot second max = refl
occurs-address spot second avg = refl
occurs-address spot second val = refl
occurs-address spot third min = refl
occurs-address spot third max = refl
occurs-address spot third avg = refl
occurs-address spot third val = refl
occurs-address spot fourth min = refl
occurs-address spot fourth max = refl
occurs-address spot fourth avg = refl
occurs-address spot fourth val = refl

addresses-Meets :
    {F : Type 0} (l : Lepton F) (now : ℕ) (ts : List Triple)
    → All (λ n. Meets (read_lepton l now n)) (map address_of ts)
addresses-Meets l now [] = _
addresses-Meets l now ((k, p, f) ∷ ts) = (read_lepton-Meets now l k p f, addresses-Meets l now ts)

module _ (type_name : ℕ → Bytes) (variant diagnosticinfo : ℕ) where
  server-in_order :
      lepton_ids (server_nodes type_name variant diagnosticinfo) ≡ map address_of in_order
  unfolding server_nodes depth_nodes lepton_nodes
  server-in_order =
      collect-type_nodes lepton_id (λ id parent name. refl) type_name variant diagnosticinfo
        diagnosticinfo 0 51000 _

  -- Whatever the types of the library, the two sources of the nodes that `main` adds meet what the
  -- library asks of a source: readTimeData, and readLepton for the id of each node for which it is
  -- named. And the address of each field of each box and spot is the id of such a node.
  pub handlers_lem :
      {F : Type 0} (l : Lepton F) (now : ℕ)
      → Meets (read_time {F = F} now)
        × All
            (λ n. Meets (read_lepton l now n))
            (lepton_ids (server_nodes type_name variant diagnosticinfo))
        × ((k : Kind) (p : Place) (f : Field)
            → occurs (address k p f) (lepton_ids (server_nodes type_name variant diagnosticinfo))
              ≡ true)
  handlers_lem l now = (
    read_time-Meets now,
    subst (All (λ n. Meets (read_lepton l now n))) (sym server-in_order)
        (addresses-Meets l now in_order),
    λ k p f. ap (occurs (address k p f)) server-in_order ∙ occurs-address k p f,
  )
