-- ===== src/Monitor/Threads.antt =====
-- The threads of the polling, and the two ways to follow a group together.
use factory_thing.Base.{
  ℕ, suc, ◌+◌, ◌≡◌, refl, ap, subst, ◌∙◌, Bool, true, false, ◌&&◌, [], ◌∷◌, arith, All, length,
  if◌then◌else◌, ok, ◌>>=◌, need, bind-inv, ok-injective,
}
use factory_thing.CString.Defs.{Bytes}
use factory_thing.Config.Defs.{Configuration, Group, Map}
use factory_thing.Config.Modes.{MonitorMode, event, poll, get_monitor_mode}
use factory_thing.Monitor.Start.{
  same_mode, Followed, visit_groups, threads, discards, monitor_start, opcua_poll,
}
use factory_thing.Monitor.Follow.{
  need_given, is_enabled, chosen, chosen_by, count, Taken, Served, visit_groups-Visited,
}

module _ (alloc : Bytes → Bytes) where
  -- The threads that are made of these groups.
  pub record Made (groups made : Map Group) : Type 0 where
    pub taken : All (λ (k, g). Taken alloc poll g) made
    pub as_many : length made ≡ count (chosen poll) groups

  abbrev AllServed : Map Group → Type 0
  AllServed groups = All (λ (k, g). Served alloc poll g) groups

  Made-add :
      (k : ℕ) (g : Group) (groups rest : Map Group)
      → chosen poll g ≡ true
      → Served alloc poll g
      → Made groups rest
      → Made ((k, g) ∷ groups) ((k, g) ∷ rest)
  Made-add k g groups rest is served below = record {
    taken = ((is, served is), below.taken);
    as_many = rw is (ap suc below.as_many);
  }

  Made-pass :
      (k : ℕ) (g : Group) (groups rest : Map Group)
      → chosen poll g ≡ false
      → Made groups rest
      → Made ((k, g) ∷ groups) rest
  Made-pass k g groups rest is below = record { taken = below.taken; as_many = rw is below.as_many }

  threads_step :
      (x : MonitorMode) (k : ℕ) (g : Group) (groups rest made : Map Group)
      → chosen poll g ≡ (same_mode x poll && is_enabled g.enable)
      → Served alloc poll g
      → Made groups rest
      → (if same_mode x poll
          then (do enable ← need g.enable; ok (if enable then (k, g) ∷ rest else rest))
          else ok rest)
        ≡ ok made
      → Made ((k, g) ∷ groups) made
  threads_step event k g groups rest made is served below h =
      subst (Made ((k, g) ∷ groups)) (ok-injective h) (Made-pass k g groups rest is below)
  threads_step poll k g groups rest made is served below h =
      let (enable, e, h1) = bind-inv (need g.enable) _ h in
      let chosen_is : chosen poll g ≡ enable = is ∙ ap is_enabled (need_given g.enable e) in
      subst (Made ((k, g) ∷ groups)) (ok-injective h1) (enabled enable chosen_is)
    where
      enabled :
          (enable : Bool)
          → chosen poll g ≡ enable
          → Made ((k, g) ∷ groups) (if enable then (k, g) ∷ rest else rest)
      enabled true on = Made-add k g groups rest on served below
      enabled false off = Made-pass k g groups rest off below

  threads-Made :
      (groups made : Map Group)
      → AllServed groups
      → threads alloc groups ≡ ok made
      → Made groups made
  unfolding threads
  threads-Made [] made all h =
      subst (Made []) (ok-injective h) (record { taken = _; as_many = refl })
  threads-Made ((k, g) ∷ groups) made (served, all) h =
      let (method, e, h1) = bind-inv (need g.method) _ h in
      let (rest, e1, h2) = bind-inv (threads alloc groups) _ h1 in
      let below = threads-Made groups rest all e1 in
      threads_step (get_monitor_mode method) k g groups rest made
        (ap (λ o. chosen_by poll o g.enable) (need_given g.method e)) served below h2

  -- Where asynchronous requests are supported and both functions return, all groups that the server
  -- watches are enabled and of mode "event", all that get a thread are enabled and polled, the ids of
  -- their nodes are what getUA_NodeID makes of the texts, and together they are as many as the groups
  -- that are enabled.
  pub follow_each :
      (c : Configuration) (groups : Map Group) {started polled : Followed}
      → c.asyc_request_supported ≡ true
      → monitor_start alloc c groups ≡ ok started
      → opcua_poll alloc c started.groups ≡ ok polled
      → All (λ (k, g). Taken alloc event g) started.followed
        × All (λ (k, g). Taken alloc poll g) polled.followed
        × (length started.followed + length polled.followed
            ≡ count (λ g. is_enabled g.enable) groups)
  unfolding monitor_start opcua_poll
  follow_each c groups {started} {polled} async h k =
      let first = visit_groups-Visited alloc event groups started (visits poll event groups h) in
      let (visited, e, k1) =
        bind-inv (visit_groups alloc poll started.groups) _ (polls started.groups k) in
      let second = visit_groups-Visited alloc poll started.groups visited e in
      let (made, e1, k2) = bind-inv (threads alloc visited.groups) _ k1 in
      let threads_made = threads-Made visited.groups made second.all_served e1 in
      subst
        (λ p.
          All (λ (k, g). Taken alloc event g) started.followed
          × All (λ (k, g). Taken alloc poll g) p.followed
          × (length started.followed + length p.followed ≡ count (λ g. is_enabled g.enable) groups))
        (ok-injective k2)
        (
          first.taken,
          threads_made.taken,
          omega (
            arith,
            first.as_many,
            threads_made.as_many,
            second.kept poll,
            first.kept poll,
            first.split_by_mode,
          ),
        )
    where
      not_discarded : (mode : MonitorMode) → discards alloc c mode ≡ false
      not_discarded mode = rw async refl

      visits :
          (mode other : MonitorMode) (groups : Map Group) {r : Followed}
          → (if discards alloc c mode
              then ok (record { groups = groups; followed = [] })
              else visit_groups alloc other groups)
            ≡ ok r
          → visit_groups alloc other groups ≡ ok r
      visits mode other groups h = rw (not_discarded mode) at h

      polls :
          (groups : Map Group) {r : Followed}
          → opcua_poll alloc c groups ≡ ok r
          → (do
            visited ← visit_groups alloc poll groups
            polled ← threads alloc visited.groups
            ok (record { groups = visited.groups; followed = polled }))
            ≡ ok r
      polls groups h = rw (not_discarded event) at h
