-- ===== src/Server/Distinct.antt =====
-- The ids of the nodes that are added.
use factory_thing.Base.{
  ℕ, zero, suc, ◌+◌, ◌*◌, ◌≤◌, ◌<◌, ◌≡◌, refl, ap, Bool, true, false, not, ◌||◌, ◌&&◌, List, [],
  ◌∷◌, ◌++◌, ◌==◌, leb, Bool-cases, inl, inr, arith,
}
use factory_thing.CString.Defs.{Bytes, equal}
use factory_thing.Server.Defs.{
  AddNode, add_node, ServerId, nodeid_null, nodeid_numeric, nodeid_string, own, scalarid, arrayid,
  matrixid, variable, type_nodes, depth_nodes, lepton_nodes, server_nodes,
}
use factory_thing.Server.Orderly.{same_id, and_true}

-- A node of this id has been added. For the null id the server makes a new one, which `same_id`
-- holds to be none of the others.
abbrev pub taken : List ServerId → ServerId → Bool
taken [] x = false
taken (y ∷ known) x = same_id x y || taken known x

-- No node has the id of one before it.
abbrev pub distinct : List ServerId → List AddNode → Bool
distinct known [] = true
distinct known (n ∷ ns) = not (taken known n.id) && distinct (n.id ∷ known) ns

-- The ids from 51001 to 59999, of the nodes for the types.
abbrev outside : ServerId → Bool
outside (nodeid_numeric ns n) = leb n 51000 || leb 60000 n
outside _ = true

abbrev all_outside : List AddNode → Bool
all_outside [] = true
all_outside (n ∷ ns) = outside n.id && all_outside ns

-- Outside, the second list has taken only what the first has.
abbrev Agrees : List ServerId → List ServerId → Type 0
Agrees known known1 =
    (x : ServerId) → outside x ≡ true → taken known x ≡ false → taken known1 x ≡ false

Agrees-∷ :
    (y : ServerId) (known known1 : List ServerId)
    → Agrees known known1
    → Agrees (y ∷ known) (y ∷ known1)
Agrees-∷ y known known1 agrees x o h = elim (Bool-cases (same_id x y)) [
  | inl e ↦ absurd (ground arith)
  | inr e ↦ rw e (agrees x o (rw e at h))
]

distinct-Agrees :
    (known known1 : List ServerId) (ns : List AddNode)
    → Agrees known known1
    → all_outside ns ≡ true
    → distinct known ns ≡ true
    → distinct known1 ns ≡ true
distinct-Agrees known known1 [] agrees o h = refl
distinct-Agrees known known1 (n ∷ ns) agrees o h = elim (Bool-cases (outside n.id)) [
  | inr e ↦ absurd (ground arith)
  | inl e ↦ elim (Bool-cases (taken known n.id)) [
    | inl t ↦ absurd (ground arith)
    | inr t ↦ rw (agrees n.id e t) (
        distinct-Agrees (n.id ∷ known) (n.id ∷ known1) ns (Agrees-∷ n.id known known1 agrees)
          (rw e at o) (rw t at h))
  ]
]

-- The ids from `id` on, below 60000, are free.
abbrev Free : ℕ → List ServerId → Type 0
Free id known = (m : ℕ) → id < m → m < 60000 → taken known (own m) ≡ false

differs :
    (x : ServerId) (n : ℕ) → outside x ≡ true → 51000 < n → n < 60000 → same_id x (own n) ≡ false
differs nodeid_null n o lo hi = refl
differs (nodeid_string ns s) n o lo hi = refl
differs (nodeid_numeric ns k) n o lo hi = ground arith

Agrees-inside :
    (n : ℕ) (known : List ServerId) → 51000 < n → n < 60000 → Agrees known (own n ∷ known)
Agrees-inside n known lo hi x o h = rw (differs x n o lo hi) h

-- The ids taken by the three nodes of a type.
abbrev next : ℕ → List ServerId → List ServerId
next id known = own (id + 3) ∷ own (id + 2) ∷ own (id + 1) ∷ known

Free-next : (id : ℕ) (known : List ServerId) → Free id known → Free (id + 3) (next id known)
Free-next id known free m lo hi = rw (free m (omega arith) hi) (ground arith)

Agrees-next :
    (id : ℕ) (known : List ServerId) → 51000 ≤ id → id + 3 < 60000 → Agrees known (next id known)
Agrees-next id known lo hi x o h =
    Agrees-inside (id + 3) (own (id + 2) ∷ own (id + 1) ∷ known) (omega arith) hi x o (
      Agrees-inside (id + 2) (own (id + 1) ∷ known) (omega arith) (omega arith) x o
        (Agrees-inside (id + 1) known (omega arith) (omega arith) x o h))

module _ (type_name : ℕ → Bytes) (variant diagnosticinfo : ℕ) where
  -- The three nodes of a type.
  three :
      (type id : ℕ) (known : List ServerId) (ns : List AddNode)
      → id + 3 < 60000
      → Free id known
      → distinct (own (id + 3) ∷ own (id + 2) ∷ own (id + 1) ∷ known) ns ≡ true
      → distinct known (
          add_node variable (own (id + 1)) (own scalarid) (type_name type)
          ∷ add_node variable (own (id + 2)) (own arrayid) (type_name type)
          ∷ add_node variable (own (id + 3)) (own matrixid) (type_name type)
          ∷ ns)
        ≡ true
  three type id known ns hi free h =
      let k1 = own (id + 1) ∷ known in
      let k2 = own (id + 2) ∷ k1 in
      let n1 : taken known (own (id + 1)) ≡ false = free (id + 1) (omega arith) (omega arith) in
      let n2 : taken k1 (own (id + 2)) ≡ false =
        rw (free (id + 2) (omega arith) (omega arith)) (ground arith) in
      let n3 : taken k2 (own (id + 3)) ≡ false =
        rw (free (id + 3) (omega arith) (omega arith)) (ground arith) in
      and_true (ap not n1) (and_true (ap not n2) (and_true (ap not n3) h))

  type_nodes-distinct :
      (rounds type id : ℕ) (known : List ServerId) (rest : List AddNode)
      → 51000 ≤ id
      → id + 3 * rounds < 60000
      → Free id known
      → all_outside rest ≡ true
      → distinct known rest ≡ true
      → distinct known (type_nodes type_name variant diagnosticinfo rounds type id ++ rest) ≡ true
  unfolding type_nodes
  type_nodes-distinct zero type id known rest lo hi free o h = h
  type_nodes-distinct (suc rounds) type id known rest lo hi free o h =
      elim (Bool-cases (type == variant || type == diagnosticinfo)) [
        | inl e ↦
            rw e (type_nodes-distinct rounds (type + 1) id known rest lo (omega arith) free o h)
        | inr e ↦ rw e (
            three type id known
              (type_nodes type_name variant diagnosticinfo rounds (type + 1) (id + 3) ++ rest)
              (omega arith) free
              (type_nodes-distinct rounds (type + 1) (id + 3) (next id known) rest (omega arith)
                (omega arith) (Free-next id known free) o
                (distinct-Agrees known (next id known) rest (Agrees-next id known lo (omega arith))
                  o h)))
      ]

  -- Where the library has fewer than 3000 types, no two of the nodes that `main` adds have the same
  -- id.
  pub distinct_lem :
      diagnosticinfo < 3000 → distinct [] (server_nodes type_name variant diagnosticinfo) ≡ true
  unfolding server_nodes depth_nodes lepton_nodes equal
  distinct_lem few =
      type_nodes-distinct diagnosticinfo 0 51000 _ _ (ground arith) (omega arith)
        (λ m lo hi. ground arith) refl refl
