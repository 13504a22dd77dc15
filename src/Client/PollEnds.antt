-- ===== src/Client/PollEnds.antt =====
-- The thread of a group comes to its end.
use factory_thing.Base.{
  ℕ, zero, suc, ◌-◌, ◌<◌, ◌≤◌, ◌≡◌, refl, Bool, true, false, Option, none, some, List, [], ◌∷◌,
  ◌++◌, arith, length, if◌then◌else◌, Bool-cases, inl, inr, Run, ok, fault, deleted, ◌>>=◌, Fueled,
  and_then,
}
use factory_thing.CString.Defs.{Bytes}
use factory_thing.Config.Defs.{Configuration, Group, Node, Map}
use factory_thing.Monitor.Value.{Value, Members}
use factory_thing.Monitor.Publish.{Message}
use factory_thing.Monitor.Round.{Gathered, poll_node, poll_message}
use factory_thing.Client.Defs.{read_value_attribute, Server, ClientState, use_client, reconnect}
use factory_thing.Client.Start.{SignalBy}
use factory_thing.Client.Reconnect.{accepts, connected, reconnect_lem, attempt-deleted}
use factory_thing.Client.Poll.{
  Device, slept, behind_value, live_value, live_node, live_nodes, live_round, live_group,
}

-- It does not run out of fuel, and if it returns, the result satisfies `P`.
abbrev pub Ends {ℓ} : {A : Type ℓ} → Fueled A → (A → Type 0) → Type 0
Ends (ok none) P = ⊥
Ends (ok (some a)) P = P a
Ends (fault why) P = Unit

and_then-Ends {ℓ κ} :
    {A : Type ℓ} {B : Type κ} (P : A → Type 0) (Q : B → Type 0) (m : Fueled A) (k : A → Fueled B)
    → Ends m P
    → ((a : A) → P a → Ends (k a) Q)
    → Ends (and_then m k) Q
and_then-Ends P Q (ok none) k ends next = absurd ends
and_then-Ends P Q (ok (some a)) k ends next = next a ends
and_then-Ends P Q (fault why) k ends next = _

bind-Ends {ℓ κ} :
    {A : Type ℓ} {B : Type κ} (Q : B → Type 0) (m : Run A) (k : A → Fueled B)
    → ((a : A) → m ≡ ok a → Ends (k a) Q)
    → Ends (m >>= k) Q
bind-Ends Q (ok a) k next = next a refl
bind-Ends Q (fault why) k next = _

-- No call is taken back.
abbrev Longer : ClientState → ClientState → Type 0
Longer s s1 = length s.calls ≤ length s1.calls

use_client-lt : (s s1 : ClientState) → use_client read_value_attribute s ≡ ok s1 → Longer s s1
unfolding use_client
use_client-lt s s1 h = ground arith

reconnect-deleted :
    (server : Server) (s : ClientState) → s.live ≡ false → reconnect server 2 s ≡ fault deleted
unfolding reconnect
reconnect-deleted server s gone = rw (attempt-deleted server s gone) refl

reconnect-Ends : (server : Server) (s : ClientState) → Ends (reconnect server 2 s) (Longer s)
reconnect-Ends server s = elim (Bool-cases s.live) [
  | inl live ↦ rw (reconnect_lem server 0 s live) (either (accepts server s.calls))
  | inr gone ↦ rw (reconnect-deleted server s gone) _
]
  where
    either :
        (b : Bool)
        → Ends (if b then ok (some (connected server s.calls)) else fault deleted) (Longer s)
    either true = omega arith
    either false = _

module _ {F : Type 0} (print_f : F → Bytes) (to_json : Members F → Bytes) (c : Configuration)
    (g : Group) (w : Device F) where
  abbrev On : {A : Type 0} → ClientState → A × ClientState → Type 0
  On s (a, s1) = Longer s s1

  behind_value-Longer : (v : Value F) (s : ClientState) → Longer s (behind_value v s)
  behind_value-Longer v s = ground arith

  live_value-Ends :
      (d : Node) (got : Gathered F) (s : ClientState) (v : Option (Value F))
      → Ends (live_value print_f to_json c g w d got s v) (On s)
  unfolding live_value
  live_value-Ends d got s none =
      and_then-Ends (Longer (slept s)) (On s) (reconnect w.server 2 (slept s)) _
        (reconnect-Ends w.server (slept s)) (λ s1 h. omega arith)
  live_value-Ends d got s (some v) =
      bind-Ends (On s) (poll_node print_f d (some v) got) _ (λ next e. behind_value-Longer v s)

  On-trans :
      {A : Type 0} (s s1 : ClientState)
      → Longer s s1
      → (m : Fueled (A × ClientState)) → Ends m (On s1)
      → Ends m (On s)
  On-trans s s1 h (ok none) ends = ends
  On-trans s s1 h (ok (some (a, s2))) ends = omega arith
  On-trans s s1 h (fault why) ends = _

  live_node-Ends :
      (d : Node) (got : Gathered F) (s : ClientState)
      → Ends (live_node print_f to_json c g w d got s) (On s)
  unfolding live_node
  live_node-Ends d got s =
      bind-Ends (On s) (use_client read_value_attribute s) _ (λ s1 e.
        On-trans s s1 (use_client-lt s s1 e) _ (live_value-Ends d got s1 (w.read s1.calls)))

  live_nodes-Ends :
      (nodes : Map Node) (got : Gathered F) (s : ClientState)
      → Ends (live_nodes print_f to_json c g w nodes got s) (On s)
  unfolding live_nodes
  live_nodes-Ends [] got s = omega arith
  live_nodes-Ends ((k, d) ∷ nodes) got s =
      and_then-Ends (On s) (On s) (live_node print_f to_json c g w d got s) _
        (live_node-Ends d got s) (λ (next, s1) h. On-trans s s1 h _ (live_nodes-Ends nodes next s1))

  live_round-Ends :
      (s : ClientState)
      → Ends (live_round print_f to_json c g w s) (λ (ms, s1). length s.calls < length s1.calls)
  unfolding live_round
  live_round-Ends s =
      and_then-Ends (On s) (λ (ms, s1). length s.calls < length s1.calls)
        (live_nodes print_f to_json c g w g.nodes (record { members = []; kvs = [] }) s) _
        (live_nodes-Ends g.nodes (record { members = []; kvs = [] }) s)
        (λ (got, s1) h.
          bind-Ends _ (poll_message print_f to_json c g (w.time s1.calls) got) _
            (λ ms e. omega arith))

  -- The thread of a group stops.
  abbrev pub Stops : List Message × ClientState → Type 0
  Stops (ms, s1) = w.server.be_stop s1.calls ≡ true

  behind-Ends :
      (fuel : ℕ) (ms : List Message) (s : ClientState)
      → (w.server.be_stop s.calls ≡ false → Ends (live_group print_f to_json c g w fuel s) Stops)
      → Ends
          (if w.server.be_stop s.calls
            then ok (some (ms, s))
            else and_then
                (live_group print_f to_json c g w fuel s)
                (λ (later, s2). ok (some (ms ++ later, s2))))
          Stops
  behind-Ends fuel ms s follow = elim (Bool-cases (w.server.be_stop s.calls)) [
    | inl stop ↦ rw stop stop
    | inr on ↦ rw on (
        and_then-Ends Stops Stops (live_group print_f to_json c g w fuel s) _ (follow on)
          (λ (later, s2) h. h))
  ]

  -- Where a signal comes by n calls, fuel of n + 1 is enough for the thread of a group: it faults, or
  -- it ends behind a round by whose end the signal has come. Each round makes a call at least.
  pub live_group-Ends :
      (n fuel : ℕ) (s : ClientState)
      → SignalBy w.server n
      → n - length s.calls < fuel
      → Ends (live_group print_f to_json c g w fuel s) Stops
  unfolding live_group
  live_group-Ends n zero s stops h = absurd (omega arith)
  live_group-Ends n (suc fuel) s stops h =
      and_then-Ends _ Stops (live_round print_f to_json c g w s) _ (live_round-Ends s)
        (λ (ms, s1) longer.
          behind-Ends fuel ms s1
            (λ on. live_group-Ends n fuel s1 stops (grind (arith, stops s1.calls))))
