-- ===== src/Monitor/Follow.antt =====
-- Each enabled group is followed once, and its nodes have ids.
use factory_thing.Base.{
  ℕ, suc, ◌+◌, ◌≡◌, refl, ap, sym, subst, ◌∙◌, Bool, true, false, ◌&&◌, Option, none, some, [], ◌∷◌,
  arith, All, length, if◌then◌else◌, ok, need, bind-inv, ok-injective,
}
use factory_thing.CString.Defs.{Bytes}
use factory_thing.Config.Defs.{Group, Node, Map}
use factory_thing.Config.Modes.{MonitorMode, event, poll, get_monitor_mode}
use factory_thing.NodeId.Defs.{UaNodeId, get_ua_node_id}
use factory_thing.Monitor.Start.{
  same_mode, Followed, resolve_node, resolve_nodes, visit, visit_groups,
}

pub need_given : {A : Type 0} (o : Option A) {a : A} → need o ≡ ok a → o ≡ some a
need_given none h = cc
need_given (some x) h = ap some (ok-injective h)

same_mode-eq : (a b : MonitorMode) → same_mode a b ≡ true → a ≡ b
same_mode-eq event event h = refl
same_mode-eq event poll h = cc
same_mode-eq poll event h = cc
same_mode-eq poll poll h = refl

abbrev pub is_enabled : Option Bool → Bool
is_enabled none = false
is_enabled (some b) = b

abbrev pub chosen_by : MonitorMode → Option Bytes → Option Bool → Bool
chosen_by mode none enable = false
chosen_by mode (some m) enable = same_mode (get_monitor_mode m) mode && is_enabled enable

-- The group has the mode and is enabled.
abbrev pub chosen : MonitorMode → Group → Bool
chosen mode g = chosen_by mode g.method g.enable

-- So many of the groups are chosen.
abbrev pub count : (Group → Bool) → Map Group → ℕ
count test [] = 0
count test ((k, g) ∷ groups) = if test g then suc (count test groups) else count test groups

module _ (alloc : Bytes → Bytes) where
  -- `ua` is what getUA_NodeID makes of `id`.
  abbrev pub Resolved : Node → Type 0
  Resolved d =
      (id : Bytes) × (old : UaNodeId) × (d.id ≡ some id) × (get_ua_node_id alloc id old ≡ ok d.ua)

  abbrev pub AllResolved : Map Node → Type 0
  AllResolved nodes = All (λ (k, d). Resolved d) nodes

  resolve_node-Resolved : (d d1 : Node) → resolve_node alloc d ≡ ok d1 → Resolved d1
  unfolding resolve_node
  resolve_node-Resolved d d1 h =
      let (id, e, h1) = bind-inv (need d.id) _ h in
      let (topic, _, h2) = bind-inv (need d.topic) _ h1 in
      let (alias, _, h3) = bind-inv (need d.alias) _ h2 in
      let (ua, made, h4) = bind-inv (get_ua_node_id alloc id d.ua) _ h3 in
      subst Resolved (ok-injective h4) (id, d.ua, need_given d.id e, made)

  resolve_nodes-AllResolved :
      (nodes nodes1 : Map Node) → resolve_nodes alloc nodes ≡ ok nodes1 → AllResolved nodes1
  unfolding resolve_nodes
  resolve_nodes-AllResolved [] nodes1 h = subst AllResolved (ok-injective h) _
  resolve_nodes-AllResolved ((k, d) ∷ nodes) nodes1 h =
      let (d1, e, h1) = bind-inv (resolve_node alloc d) _ h in
      let (rest, e1, h2) = bind-inv (resolve_nodes alloc nodes) _ h1 in
      subst AllResolved (ok-injective h2)
        (resolve_node-Resolved d d1 e, resolve_nodes-AllResolved nodes rest e1)

  visit_lem :
      (mode : MonitorMode) (g g1 : Group) (b : Bool)
      → visit alloc mode g ≡ ok (b, g1)
      → (b ≡ chosen mode g) × (g1.method ≡ g.method) × (g1.enable ≡ g.enable)
  unfolding visit
  visit_lem mode g g1 b h = ground arith

  -- The group is chosen, and all its nodes are resolved.
  abbrev pub Taken : MonitorMode → Group → Type 0
  Taken mode g = (chosen mode g ≡ true) × AllResolved g.nodes

  visit-Resolved :
      (mode : MonitorMode) (g g1 : Group)
      → visit alloc mode g ≡ ok (true, g1)
      → AllResolved g1.nodes
  unfolding visit
  visit-Resolved mode g g1 h = ground (arith, resolve_nodes-AllResolved g.nodes g1.nodes)

  chosen-visit :
      (mode m : MonitorMode) (g g1 : Group) (b : Bool)
      → visit alloc mode g ≡ ok (b, g1)
      → chosen m g1 ≡ chosen m g
  chosen-visit mode m g g1 b h =
      let (_, same, enabled) = visit_lem mode g g1 b h in
      ap (λ x. chosen_by m x g1.enable) same ∙ ap (λ x. chosen_by m g.method x) enabled

  -- Where the group is chosen, its nodes are resolved.
  abbrev pub Served : MonitorMode → Group → Type 0
  Served mode g = chosen mode g ≡ true → AllResolved g.nodes

  visit-Served :
      (mode : MonitorMode) (g g1 : Group) (b : Bool)
      → visit alloc mode g ≡ ok (b, g1)
      → Served mode g1
  visit-Served mode g g1 b h is =
      let taken : b ≡ true =
        (visit_lem mode g g1 b h).0 ∙ (sym (chosen-visit mode mode g g1 b h) ∙ is) in
      visit-Resolved mode g g1 (rw taken at h)

  -- What a loop leaves: the groups that it has gone into are taken, as many as were chosen.
  pub record Visited (mode : MonitorMode) (groups : Map Group) (r : Followed) : Type 0 where
    pub taken : All (λ (k, g). Taken mode g) r.followed
    pub all_served : All (λ (k, g). Served mode g) r.groups
    pub as_many : length r.followed ≡ count (chosen mode) groups
    pub kept : (m : MonitorMode) → count (chosen m) r.groups ≡ count (chosen m) groups
    pub split_by_mode :
        count (chosen event) groups + count (chosen poll) groups
        ≡ count (λ g. is_enabled g.enable) groups

  split_one :
      (x : MonitorMode) (b : Bool) (i j n : ℕ)
      → i + j ≡ n
      → (if same_mode x event && b then suc i else i) + (if same_mode x poll && b then suc j else j)
        ≡ (if b then suc n else n)
  split_one event true i j n h = omega (arith, h)
  split_one event false i j n h = h
  split_one poll true i j n h = omega (arith, h)
  split_one poll false i j n h = h

  chosen-split :
      (mode : MonitorMode) (g g1 : Group) (b : Bool) (i j n : ℕ)
      → visit alloc mode g ≡ ok (b, g1)
      → i + j ≡ n
      → (if chosen event g then suc i else i) + (if chosen poll g then suc j else j)
        ≡ (if is_enabled g.enable then suc n else n)
  unfolding visit
  chosen-split mode g g1 b i j n h sum =
      let (method, e, _) = bind-inv (need g.method) _ h in
      subst
        (λ o.
          (if chosen_by event o g.enable then suc i else i)
            + (if chosen_by poll o g.enable then suc j else j)
          ≡ (if is_enabled g.enable then suc n else n))
        (sym (need_given g.method e))
        (split_one (get_monitor_mode method) (is_enabled g.enable) i j n sum)

  counted :
      (b : Bool) (k : ℕ) (g : Group) (followed : Map Group) (n : ℕ)
      → length followed ≡ n
      → length (if b then (k, g) ∷ followed else followed) ≡ (if b then suc n else n)
  counted true k g followed n h = ap suc h
  counted false k g followed n h = h

  Taken-one :
      (mode : MonitorMode) (b : Bool) (k : ℕ) (g g1 : Group) (followed : Map Group)
      → visit alloc mode g ≡ ok (b, g1)
      → All (λ (k, g). Taken mode g) followed
      → All (λ (k, g). Taken mode g) (if b then (k, g1) ∷ followed else followed)
  Taken-one mode true k g g1 followed e all = (
    (
      chosen-visit mode mode g g1 true e ∙ sym (visit_lem mode g g1 true e).0,
      visit-Resolved mode g g1 e,
    ),
    all,
  )
  Taken-one mode false k g g1 followed e all = all

  Visited-step :
      (mode : MonitorMode) (k : ℕ) (g g1 : Group) (b : Bool) (groups : Map Group) (rest : Followed)
      → visit alloc mode g ≡ ok (b, g1)
      → Visited mode groups rest
      → Visited mode ((k, g) ∷ groups) (record {
        groups = (k, g1) ∷ rest.groups;
        followed = if b then (k, g1) ∷ rest.followed else rest.followed;
      })
  Visited-step mode k g g1 b groups rest e below = record {
    taken = Taken-one mode b k g g1 rest.followed e below.taken;
    all_served = (visit-Served mode g g1 b e, below.all_served);
    as_many =
        subst
          (λ x.
            length (if b then (k, g1) ∷ rest.followed else rest.followed)
            ≡ (if x then suc (count (chosen mode) groups) else count (chosen mode) groups))
          (visit_lem mode g g1 b e).0 (counted b k g1 rest.followed _ below.as_many);
    kept = λ m.
        ap (λ x. if x then suc (count (chosen m) rest.groups) else count (chosen m) rest.groups)
          (chosen-visit mode m g g1 b e)
        ∙ ap (λ n. if chosen m g then suc n else n) (below.kept m);
    split_by_mode = chosen-split mode g g1 b _ _ _ e below.split_by_mode;
  }

  pub visit_groups-Visited :
      (mode : MonitorMode) (groups : Map Group) (r : Followed)
      → visit_groups alloc mode groups ≡ ok r
      → Visited mode groups r
  unfolding visit_groups
  visit_groups-Visited mode [] r h = subst (Visited mode []) (ok-injective h) (record {
    taken = _;
    all_served = _;
    as_many = refl;
    kept = λ m. refl;
    split_by_mode = ground arith;
  })
  visit_groups-Visited mode ((k, g) ∷ groups) r h =
      let ((b, g1), e, h1) = bind-inv (visit alloc mode g) _ h in
      let (rest, e1, h2) = bind-inv (visit_groups alloc mode groups) _ h1 in
      subst (Visited mode ((k, g) ∷ groups)) (ok-injective h2)
        (Visited-step mode k g g1 b groups rest e (visit_groups-Visited mode groups rest e1))
