-- ===== src/Bridge/Ordered.antt =====
-- The groups that get a thread have their nodes in the order of their keys.
use factory_thing.Base.{
  Run-cases, ◌≡◌, subst, Bool, [], ◌∷◌, arith, ok, need, bind-inv, ok-injective, Bool-cases, inl,
  inr, ℕ,
}
use factory_thing.CString.Defs.{Bytes}
use factory_thing.Config.Defs.{Configuration, Group, Node, Map}
use factory_thing.Config.Maps.{Above, IsOrdered}
use factory_thing.Config.Modes.{MonitorMode, event, poll}
use factory_thing.Config.Ordered.{NodesOrdered}
use factory_thing.Monitor.Start.{
  Followed, discards, resolve_node, resolve_nodes, visit, visit_groups, threads, opcua_poll,
}

module _ (alloc : Bytes → Bytes) where
  -- The keys stay.
  resolve_nodes-Above :
      (k : ℕ) (nodes : Map Node) {nodes1 : Map Node}
      → Above k nodes
      → resolve_nodes alloc nodes ≡ ok nodes1
      → Above k nodes1
  unfolding resolve_nodes
  resolve_nodes-Above k [] above h = subst (Above k) (ok-injective h) above
  resolve_nodes-Above k ((j, d) ∷ nodes) (lt, above) h =
      let (d1, e, h1) = bind-inv (resolve_node alloc d) _ h in
      let (rest, e1, h2) = bind-inv (resolve_nodes alloc nodes) _ h1 in
      subst (Above k) (ok-injective h2) (lt, resolve_nodes-Above k nodes above e1)

  resolve_nodes-IsOrdered :
      (nodes : Map Node) {nodes1 : Map Node}
      → IsOrdered nodes
      → resolve_nodes alloc nodes ≡ ok nodes1
      → IsOrdered nodes1
  unfolding resolve_nodes
  resolve_nodes-IsOrdered [] ordered h = subst IsOrdered (ok-injective h) ordered
  resolve_nodes-IsOrdered ((j, d) ∷ nodes) (above, ordered) h =
      let (d1, e, h1) = bind-inv (resolve_node alloc d) _ h in
      let (rest, e1, h2) = bind-inv (resolve_nodes alloc nodes) _ h1 in
      subst IsOrdered (ok-injective h2)
        (resolve_nodes-Above j nodes above e1, resolve_nodes-IsOrdered nodes ordered e1)

  visit-IsOrdered :
      (mode : MonitorMode) (g g1 : Group) (b : Bool)
      → IsOrdered g.nodes
      → visit alloc mode g ≡ ok (b, g1)
      → IsOrdered g1.nodes
  unfolding visit
  visit-IsOrdered mode g g1 b ordered h = elim (Run-cases (resolve_nodes alloc g.nodes)) [
    | inl (nodes, e) ↦ let kept = resolve_nodes-IsOrdered g.nodes ordered e in ground arith
    | inr (why, e) ↦ ground arith
  ]

  visit_groups-NodesOrdered :
      (mode : MonitorMode) (groups : Map Group) {r : Followed}
      → NodesOrdered groups
      → visit_groups alloc mode groups ≡ ok r
      → NodesOrdered r.groups
  unfolding visit_groups
  visit_groups-NodesOrdered mode [] all h = subst (λ r. NodesOrdered r.groups) (ok-injective h) all
  visit_groups-NodesOrdered mode ((k, g) ∷ groups) (one, all) h =
      let ((b, g1), e, h1) = bind-inv (visit alloc mode g) _ h in
      let (rest, e1, h2) = bind-inv (visit_groups alloc mode groups) _ h1 in
      subst (λ r. NodesOrdered r.groups) (ok-injective h2)
        (visit-IsOrdered mode g g1 b one e, visit_groups-NodesOrdered mode groups all e1)

  threads-NodesOrdered :
      (groups : Map Group) {made : Map Group}
      → NodesOrdered groups
      → threads alloc groups ≡ ok made
      → NodesOrdered made
  unfolding threads
  threads-NodesOrdered [] all h = subst NodesOrdered (ok-injective h) all
  threads-NodesOrdered ((k, g) ∷ groups) (one, all) h =
      let (method, e, h1) = bind-inv (need g.method) _ h in
      let (rest, e1, h2) = bind-inv (threads alloc groups) _ h1 in
      ground (arith, threads-NodesOrdered groups {made = rest} all e1)

  -- Each group for which opcua_poll makes a thread has its nodes in the order of their keys, if the
  -- groups that it is given do.
  pub opcua_poll-NodesOrdered :
      (c : Configuration) (groups : Map Group) (r : Followed)
      → NodesOrdered groups
      → opcua_poll alloc c groups ≡ ok r
      → NodesOrdered r.followed
  unfolding opcua_poll
  opcua_poll-NodesOrdered c groups r all h = elim (Bool-cases (discards alloc c event)) [
    | inl e ↦ subst (λ r. NodesOrdered r.followed) (ok-injective (rw (e, opcua_poll) at h)) _
    | inr e ↦
        let (visited, e1, h1) =
          bind-inv (visit_groups alloc poll groups) _ (rw (e, opcua_poll) at h) in
        let (polled, e2, h2) = bind-inv (threads alloc visited.groups) _ h1 in
        subst (λ r. NodesOrdered r.followed) (ok-injective h2)
          (threads-NodesOrdered visited.groups (visit_groups-NodesOrdered poll groups all e1) e2)
  ]
