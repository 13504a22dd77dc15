-- ===== src/Config/Nodes.antt =====
-- The nodes of a group: each element of the array gives one node, all strings of which are set.
use mathlib.Core.List.{append_assoc, append-nil}
use factory_thing.Base.{
  ℕ, zero, suc, ◌+◌, ◌<◌, ◌≡◌, ◌∙◌, ap, refl, Option, none, some, List, [], ◌∷◌, ◌++◌, arith, ok,
  bind-inv, ok-injective,
}
use factory_thing.Json.{JsonLib, array_type}
use factory_thing.Config.Defs.{Node, unset_node, Map, insert, Group}
use factory_thing.Config.Group.{read_node, show_node, read_nodes, group_nodes}

-- The variable was set.
abbrev pub Given {ℓ} : {A : Type ℓ} → Option A → Type 0
Given none = ⊥
Given (some a) = Unit

abbrev pub HasStrings : Node → Type 0
HasStrings n = Given n.id × Given n.topic × Given n.alias

abbrev pub NodesComplete : Map Node → Type 0
NodesComplete [] = Unit
NodesComplete ((_, n) ∷ m) = HasStrings n × NodesComplete m

abbrev pub keys {ℓ} : {V : Type ℓ} → Map V → List ℕ
keys [] = []
keys ((k, _) ∷ m) = k ∷ keys m

-- i, i + 1, … , n numbers of them.
abbrev pub numbers_from : ℕ → ℕ → List ℕ
numbers_from i zero = []
numbers_from i (suc n) = i ∷ numbers_from (i + 1) n

abbrev pub AllBelow {ℓ} : {V : Type ℓ} → ℕ → Map V → Type 0
AllBelow i [] = Unit
AllBelow i ((k, _) ∷ m) = (k < i) × AllBelow i m

pub insert_at_end {ℓ} :
    {V : Type ℓ} (i : ℕ) (v : V) (m : Map V) → AllBelow i m → insert i v m ≡ m ++ ((i, v) ∷ [])
unfolding insert
insert_at_end i v [] h = refl
insert_at_end i v ((k, w) ∷ m) (h, hs) = ground (arith, insert_at_end i v m hs)

pub AllBelow-append {ℓ} :
    {V : Type ℓ} (i : ℕ) (v : V) (m : Map V) → AllBelow i m → AllBelow (i + 1) (m ++ ((i, v) ∷ []))
AllBelow-append i v [] h = (omega arith, tt)
AllBelow-append i v ((k, w) ∷ m) (h, hs) = (omega arith, AllBelow-append i v m hs)

NodesComplete-append :
    (i : ℕ) (n : Node) (m : Map Node)
    → NodesComplete m
    → HasStrings n
    → NodesComplete (m ++ ((i, n) ∷ []))
NodesComplete-append i n [] h k = (k, tt)
NodesComplete-append i n ((j, x) ∷ m) (h, hs) k = (h, NodesComplete-append i n m hs k)

keys-append {ℓ} :
    {V : Type ℓ} (i : ℕ) (v : V) (m : Map V) → keys (m ++ ((i, v) ∷ [])) ≡ keys m ++ (i ∷ [])
keys-append i v [] = refl
keys-append i v ((k, w) ∷ m) = ap (◌∷◌ k) (keys-append i v m)

module _ (J : JsonLib) where
  pub show_node-HasStrings : (n : Node) {u : Unit {0}} → show_node J n ≡ ok u → HasStrings n
  unfolding show_node
  show_node-HasStrings n h = ground arith

  -- What the loop has made of the elements so far, and what it makes of the rest.
  read_nodes_complete :
      (val : J.Ptr) (rounds i : ℕ) (n : Node) (g : Group) {g' : Group}
      → AllBelow i g.nodes
      → NodesComplete g.nodes
      → read_nodes J val rounds i n g ≡ ok g'
      → NodesComplete g'.nodes × (keys g'.nodes ≡ keys g.nodes ++ numbers_from i rounds)
  unfolding read_nodes
  read_nodes_complete val zero i n g below whole h = rw (← ok-injective h) (whole, rw append-nil)
  read_nodes_complete val (suc rounds) i n g below whole h =
      let (n', made, h1) = bind-inv (read_node J n (J.array_get_idx val i)) _ h in
      let (u, shown, h2) = bind-inv (show_node J n') _ h1 in
      let e = insert_at_end i n' g.nodes below in
      let (all, numbered) =
        read_nodes_complete val rounds (i + 1) n' _ (rw e (AllBelow-append i n' g.nodes below))
          (rw e (NodesComplete-append i n' g.nodes whole (show_node-HasStrings n' shown))) h2 in
      (all, numbered ∙ rw (e, keys-append) (append_assoc (keys g.nodes) (i ∷ []) _))

  -- When the member "nodes" of a group is an array of L elements and is read into a group with no
  -- nodes, there is a node for each of 0, …, L - 1, in this order, and each has its id, topic and
  -- alias set.
  group_nodes_complete :
      (g : Group) (val : J.Ptr) {g' : Group}
      → J.get_type val ≡ array_type
      → g.nodes ≡ []
      → group_nodes J g val ≡ ok g'
      → NodesComplete g'.nodes × (keys g'.nodes ≡ numbers_from 0 (J.array_length val))
  unfolding group_nodes
  group_nodes_complete g val t e h =
      let r =
        read_nodes_complete val (J.array_length val) 0 unset_node g (rw e tt) (rw e tt)
          (rw (t, group_nodes) at h) in
      (r.0, r.1 ∙ rw e)
