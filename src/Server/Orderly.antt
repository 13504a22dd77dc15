-- ===== src/Server/Orderly.antt =====
-- The order in which `main` makes its calls on the server.
use factory_thing.Base.{
  ℕ, zero, suc, ◌+◌, ◌≡◌, refl, ap, Bool, true, false, ◌||◌, ◌&&◌, List, [], ◌∷◌, ◌++◌, ◌==◌,
  Bool-cases, inl, inr, arith,
}
use factory_thing.CString.Defs.{Bytes, equal}
use factory_thing.Server.Certificate.{ByteString}
use factory_thing.Server.Calls.{
  ServerCall, server_new, added, add_reference, write_display_name, run, delete, adds, last_calls,
  server_calls,
}
use factory_thing.Server.Defs.{
  first_nodes, AddNode, add_node, ServerId, nodeid_numeric, nodeid_string, own, objects_folder,
  scalarid, arrayid, matrixid, variable, type_nodes, depth_nodes, lepton_nodes, server_nodes,
}

abbrev pub same_id : ServerId → ServerId → Bool
same_id (nodeid_numeric ns n) (nodeid_numeric ms m) = ns == ms && n == m
same_id (nodeid_string ns s) (nodeid_string ms t) = ns == ms && equal s t
same_id _ _ = false

-- The server has a node of this id, once those of `known` are added: the folder of objects is there
-- from the start.
abbrev pub knows : List ServerId → ServerId → Bool
knows [] x = same_id x objects_folder
knows (y ∷ known) x = same_id x y || knows known x

abbrev pub is_end : List ServerCall → Bool
is_end [] = true
is_end (call ∷ calls) = false

-- Each call is on a server that is there, and finds what it names: a node its parent, a reference
-- both of its nodes, and a display name its node. Deleting the server is the last call.
unfoldable pub serves : List ServerId → List ServerCall → Bool
serves known [] = false
serves known (server_new c ∷ calls) = false
serves known (added n ∷ calls) = knows known n.parent && serves (n.id ∷ known) calls
serves known (add_reference x y ∷ calls) = (knows known x && knows known y) && serves known calls
serves known (write_display_name x name ∷ calls) = knows known x && serves known calls
serves known (run ∷ calls) = serves known calls
serves known (delete ∷ calls) = is_end calls

-- And making the server is the first.
abbrev pub orderly : List ServerCall → Bool
orderly (server_new c ∷ calls) = serves [] calls
orderly _ = false

-- The nodes that the calls add.
abbrev pub added_nodes : List ServerCall → List AddNode
added_nodes [] = []
added_nodes (added n ∷ calls) = n ∷ added_nodes calls
added_nodes (_ ∷ calls) = added_nodes calls

added_nodes-adds :
    (ns : List AddNode) (calls : List ServerCall)
    → added_nodes (adds ns calls) ≡ ns ++ added_nodes calls
unfolding adds
added_nodes-adds [] calls = refl
added_nodes-adds (n ∷ ns) calls = ap (◌∷◌ n) (added_nodes-adds ns calls)

-- Whatever the first list knows, the second knows.
abbrev Below : List ServerId → List ServerId → Type 0
Below known known1 = (x : ServerId) → knows known x ≡ true → knows known1 x ≡ true

pub and_true : {a b : Bool} → a ≡ true → b ≡ true → (a && b) ≡ true
and_true h k = rw (h, k) refl

Below-∷ :
    (y : ServerId) (known known1 : List ServerId)
    → Below known known1
    → Below (y ∷ known) (y ∷ known1)
Below-∷ y known known1 below x h = elim (Bool-cases (same_id x y)) [
  | inl e ↦ rw e refl
  | inr e ↦ rw e (below x (rw e at h))
]

Below-more : (y : ServerId) (known : List ServerId) → Below known (y ∷ known)
Below-more y known x h = rw h (ground arith)

and_inv : {a b : Bool} → (a && b) ≡ true → (a ≡ true) × (b ≡ true)
and_inv {a = true} h = (refl, h)
and_inv {a = false} h = cc

serves-Below :
    (known known1 : List ServerId) (calls : List ServerCall)
    → Below known known1
    → serves known calls ≡ true
    → serves known1 calls ≡ true
unfolding serves
serves-Below known known1 [] below h = h
serves-Below known known1 (server_new c ∷ calls) below h = h
serves-Below known known1 (added n ∷ calls) below h =
    let (p, rest) = and_inv h in
    and_true (below n.parent p)
      (serves-Below (n.id ∷ known) (n.id ∷ known1) calls (Below-∷ n.id known known1 below) rest)
serves-Below known known1 (add_reference x y ∷ calls) below h =
    let (both, rest) = and_inv h in
    let (from, to) = and_inv both in
    and_true (and_true (below x from) (below y to)) (serves-Below known known1 calls below rest)
serves-Below known known1 (write_display_name x name ∷ calls) below h =
    let (p, rest) = and_inv h in and_true (below x p) (serves-Below known known1 calls below rest)
serves-Below known known1 (run ∷ calls) below h = serves-Below known known1 calls below h
serves-Below known known1 (delete ∷ calls) below h = h

module _ (type_name : ℕ → Bytes) (variant diagnosticinfo : ℕ) where
  -- The three nodes of a type.
  three :
      (type id : ℕ) (known : List ServerId) (calls : List ServerCall)
      → knows known (own scalarid) ≡ true
      → knows known (own arrayid) ≡ true
      → knows known (own matrixid) ≡ true
      → serves known calls ≡ true
      → serves known (
          added (add_node variable (own (id + 1)) (own scalarid) (type_name type))
          ∷ added (add_node variable (own (id + 2)) (own arrayid) (type_name type))
          ∷ added (add_node variable (own (id + 3)) (own matrixid) (type_name type))
          ∷ calls)
        ≡ true
  unfolding serves
  three type id known calls s a m h =
      let k1 = own (id + 1) ∷ known in
      let k2 = own (id + 2) ∷ k1 in
      let up1 = Below-more (own (id + 1)) known in
      let up2 = Below-more (own (id + 2)) k1 in
      let up3 = Below-more (own (id + 3)) k2 in
      and_true s (
        and_true (up1 (own arrayid) a) (
          and_true (up2 (own matrixid) (up1 (own matrixid) m))
            (serves-Below known (own (id + 3) ∷ k2) calls (λ x k. up3 x (up2 x (up1 x k))) h)))

  type_nodes-first :
      (rounds type id : ℕ) (known : List ServerId) (rest : List ServerCall)
      → knows known (own scalarid) ≡ true
      → knows known (own arrayid) ≡ true
      → knows known (own matrixid) ≡ true
      → serves known rest ≡ true
      → serves known (adds (type_nodes type_name variant diagnosticinfo rounds type id) rest) ≡ true
  unfolding type_nodes adds
  type_nodes-first zero type id known rest s a m h = h
  type_nodes-first (suc rounds) type id known rest s a m h =
      elim (Bool-cases (type == variant || type == diagnosticinfo)) [
        | inl e ↦ rw e (type_nodes-first rounds (type + 1) id known rest s a m h)
        | inr e ↦ rw e (
            three type id known
              (adds (type_nodes type_name variant diagnosticinfo rounds (type + 1) (id + 3)) rest) s
              a m (type_nodes-first rounds (type + 1) (id + 3) known rest s a m h))
      ]

  -- Whatever the types of the library and the certificate, `main` makes the server, then adds the
  -- nodes, and deletes the server last. Every node that it adds has a parent that is there, which is
  -- the folder of objects or a node that is added before it; and so have both references to
  -- "the.answer" and the display name that it writes their nodes.
  pub orderly_lem :
      (certificate : ByteString)
      → (orderly (server_calls certificate type_name variant diagnosticinfo) ≡ true)
        × (added_nodes (server_calls certificate type_name variant diagnosticinfo)
            ≡ server_nodes type_name variant diagnosticinfo)
  unfolding server_calls last_calls serves adds server_nodes depth_nodes lepton_nodes equal
  orderly_lem certificate = (
    type_nodes-first diagnosticinfo 0 51000 _ _ refl refl refl refl,
    ap (λ ns. first_nodes ++ ns)
        (added_nodes-adds (type_nodes type_name variant diagnosticinfo diagnosticinfo 0 51000) _),
  )
