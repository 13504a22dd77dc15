-- ===== src/Bridge/Fitting.antt =====
-- The groups that a thread is made for have values that fit.
use factory_thing.Base.{
  ◌≡◌, ◌⊎◌, sym, subst, Bool, true, some, [], ◌∷◌, All, arith, Bool-cases, inl, inr, Option, ok,
  need, bind-inv, ok-injective,
}
use factory_thing.CString.Defs.{Bytes}
use factory_thing.Config.Defs.{Configuration, Node, Group, Map}
use factory_thing.Config.Modes.{MonitorMode, poll, event, get_monitor_mode}
use factory_thing.Monitor.Value.{Members}
use factory_thing.Monitor.Pairs.{FitsRead}
use factory_thing.Monitor.Rounds.{PollReady}
use factory_thing.Monitor.Start.{
  same_mode, Followed, discards, resolve_node, resolve_nodes, visit, visit_groups, threads,
  opcua_poll,
}
use factory_thing.Client.Defs.{Calls}
use factory_thing.Client.Poll.{Device}

need-inv {ℓ} : {A : Type ℓ} (o : Option A) {a : A} → need o ≡ ok a → o ≡ some a
need-inv o h = ground arith

module _ (alloc : Bytes → Bytes) where
  -- `ua` alone changes.
  resolve_node-alias : (d d1 : Node) → resolve_node alloc d ≡ ok d1 → d1.alias ≡ d.alias
  unfolding resolve_node
  resolve_node-alias d d1 h = ground arith

  resolve_nodes-All :
      (P : Option Bytes → Type 0) (nodes nodes1 : Map Node)
      → resolve_nodes alloc nodes ≡ ok nodes1
      → All (λ (k, d). P d.alias) nodes
      → All (λ (k, d). P d.alias) nodes1
  unfolding resolve_nodes
  resolve_nodes-All P [] nodes1 h all = subst (All (λ (k, d). P d.alias)) (ok-injective h) _
  resolve_nodes-All P ((k, d) ∷ nodes) nodes1 h (one, all) =
      let (d1, e, h1) = bind-inv (resolve_node alloc d) _ h in
      let (rest, e1, h2) = bind-inv (resolve_nodes alloc nodes) _ h1 in
      subst (All (λ (k, d). P d.alias)) (ok-injective h2)
        (subst P (sym (resolve_node-alias d d1 e)) one, resolve_nodes-All P nodes rest e1 all)

  -- A visit leaves the group as it is, or resolves its nodes.
  visit_cases :
      (mode : MonitorMode) (g g1 : Group) (b : Bool)
      → visit alloc mode g ≡ ok (b, g1)
      → (g1 ≡ g)
        ⊎ ((nodes : Map Node) × (resolve_nodes alloc g.nodes ≡ ok nodes)
            × (g1 ≡ record g { nodes = nodes }))
  unfolding visit
  visit_cases mode g g1 b h =
      let (method, e, h1) = bind-inv (need g.method) _ h in
      elim (Bool-cases (same_mode (get_monitor_mode method) mode)) [
        | inr other ↦ inl (sym (λ i. (ok-injective (rw other at h1) i).1))
        | inl same ↦
            let (name, e1, h2) = bind-inv (need g.name) _ (rw same at h1) in
            let (enable, e2, h3) = bind-inv (need g.enable) _ h2 in
            let (interval, e3, h4) = bind-inv (need g.interval_usec) _ h3 in
            let (mqtt, e4, h5) = bind-inv (need g.mqtt) _ h4 in
            let (tcp, e5, h6) = bind-inv (need g.tcp) _ h5 in
            elim (Bool-cases enable) [
              | inr off ↦ inl (sym (λ i. (ok-injective (rw off at h6) i).1))
              | inl on ↦
                  let (nodes, e6, h7) = bind-inv (resolve_nodes alloc g.nodes) _ (rw on at h6) in
                  inr (nodes, e6, sym (λ i. (ok-injective h7 i).1))
            ]
      ]

module _ {F : Type 0} (print_f : F → Bytes) (to_json : Members F → Bytes) (c : Configuration)
    (w : Device F) where
  -- A group is ready, and whatever is read fits the arrays of its nodes.
  abbrev pub Fitting : Group → Type 0
  Fitting g =
      PollReady c g
      × All (λ (k, d). (calls : Calls) → FitsRead print_f d.alias (w.read calls)) g.nodes

  -- So is each group that a thread is made for.
  abbrev pub FittingIfPolled : Group → Type 0
  FittingIfPolled g =
      (method : Bytes)
      → g.method ≡ some method
      → same_mode (get_monitor_mode method) poll ≡ true
      → g.enable ≡ some true
      → Fitting g

  abbrev pub AllFitting : Map Group → Type 0
  AllFitting groups = All (λ (k, g). FittingIfPolled g) groups

  ready_nodes :
      (g : Group) (nodes : Map Node) → PollReady c g → PollReady c (record g { nodes = nodes })
  ready_nodes g nodes ready = record {
    group_topic = ready.group_topic;
    format = ready.format;
    mqtt = ready.mqtt;
    tcp = ready.tcp;
    group_topic_given = ready.group_topic_given;
    format_given = ready.format_given;
    mqtt_given = ready.mqtt_given;
    tcp_given = ready.tcp_given;
    topic_fits = ready.topic_fits;
  }

  module _ (alloc : Bytes → Bytes) where
    visit-FittingIfPolled :
        (mode : MonitorMode) (g g1 : Group) (b : Bool)
        → visit alloc mode g ≡ ok (b, g1)
        → FittingIfPolled g
        → FittingIfPolled g1
    visit-FittingIfPolled mode g g1 b h fits = elim (visit_cases alloc mode g g1 b h) [
      | inl e ↦ subst FittingIfPolled (sym e) fits
      | inr (nodes, e, e1) ↦ subst FittingIfPolled (sym e1) (λ method given polled on.
          let (ready, all) = fits method given polled on in
          (
            ready_nodes g nodes ready,
            resolve_nodes-All alloc
                (λ alias. (calls : Calls) → FitsRead print_f alias (w.read calls)) g.nodes nodes e
                all,
          ))
    ]

    visit_groups-AllFitting :
        (mode : MonitorMode) (groups : Map Group) {r : Followed}
        → visit_groups alloc mode groups ≡ ok r
        → AllFitting groups
        → AllFitting r.groups
    unfolding visit_groups
    visit_groups-AllFitting mode [] h all = subst (λ r. AllFitting r.groups) (ok-injective h) _
    visit_groups-AllFitting mode ((k, g) ∷ groups) h (one, all) =
        let ((b, g1), e, h1) = bind-inv (visit alloc mode g) _ h in
        let (rest, e1, h2) = bind-inv (visit_groups alloc mode groups) _ h1 in
        subst (λ r. AllFitting r.groups) (ok-injective h2)
          (visit-FittingIfPolled mode g g1 b e one, visit_groups-AllFitting mode groups e1 all)

    threads-Fitting :
        (groups made : Map Group)
        → threads alloc groups ≡ ok made
        → AllFitting groups
        → All (λ (k, g). Fitting g) made
    unfolding threads
    threads-Fitting [] made h all = subst (All (λ (k, g). Fitting g)) (ok-injective h) _
    threads-Fitting ((k, g) ∷ groups) made h (one, all) =
        let (method, e, h1) = bind-inv (need g.method) _ h in
        let (rest, e1, h2) = bind-inv (threads alloc groups) _ h1 in
        let below = threads-Fitting groups rest e1 all in
        elim (Bool-cases (same_mode (get_monitor_mode method) poll)) [
          | inr other ↦ subst (All (λ (k, g). Fitting g)) (ok-injective (rw other at h2)) below
          | inl polled ↦
              let (enable, e2, h3) = bind-inv (need g.enable) _ (rw polled at h2) in
              elim (Bool-cases enable) [
                | inr off ↦ subst (All (λ (k, g). Fitting g)) (ok-injective (rw off at h3)) below
                | inl on ↦ subst (All (λ (k, g). Fitting g)) (ok-injective (rw on at h3)) (
                  one method (need-inv g.method e) polled (need-inv g.enable (rw on at e2)),
                  below,
                )
              ]
        ]

    pub opcua_poll-Fitting :
        (groups : Map Group) (r : Followed)
        → opcua_poll alloc c groups ≡ ok r
        → AllFitting groups
        → All (λ (k, g). Fitting g) r.followed
    unfolding opcua_poll
    opcua_poll-Fitting groups r h all = elim (Bool-cases (discards alloc c event)) [
      | inl e ↦
          subst (λ r. All (λ (k, g). Fitting g) r.followed) (ok-injective (rw (e, opcua_poll) at h))
            _
      | inr e ↦
          let (visited, e1, h1) =
            bind-inv (visit_groups alloc poll groups) _ (rw (e, opcua_poll) at h) in
          let (polled, e2, h2) = bind-inv (threads alloc visited.groups) _ h1 in
          subst (λ r. All (λ (k, g). Fitting g) r.followed) (ok-injective h2)
            (threads-Fitting visited.groups polled e2 (visit_groups-AllFitting poll groups e1 all))
    ]
