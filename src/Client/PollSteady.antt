-- ===== src/Client/PollSteady.antt =====
-- The thread of a group whose values fit does not fault while the server lets it connect again.
use factory_thing.Base.{
  ℕ, zero, suc, ◌-◌, ◌<◌, ◌≡◌, ◌⊎◌, refl, true, false, Option, none, some, List, [], ◌∷◌, ◌++◌, All,
  length, Bool-cases, inl, inr, ok, ok-injective, bind-inv, ◌∙◌, sym, subst, ◌+◌, Fueled,
}
use factory_thing.CString.Defs.{Bytes}
use factory_thing.Config.Defs.{Configuration, Group, Node, Map}
use factory_thing.Config.Maps.{IsOrdered}
use factory_thing.Monitor.Value.{
  Value, boolean, sbyte, byte, int16, uint16, int32, uint32, int64, uint64, float, double, string,
  unsupported, untyped, Members,
}
use factory_thing.Monitor.Publish.{Message}
use factory_thing.Monitor.Round.{Gathered, poll_message}
use factory_thing.Monitor.Pairs.{FitsRead, Returns, poll_node-fits}
use factory_thing.Monitor.Sendable.{InRange}
use factory_thing.Monitor.Round.{poll_nodes, poll_round}
use factory_thing.Monitor.Pairs.{poll_nodes_iff}
use factory_thing.Monitor.Loop.{PollInputs, round, Sends, last, more}
use factory_thing.Client.PollRefines.{IsGiven}
use factory_thing.Monitor.Rounds.{PollReady, poll_message_lem, round_of, poll_round_lem}
use factory_thing.Client.Defs.{read_value_attribute, Calls, ClientState, use_client}
use factory_thing.Client.Start.{SignalBy}
use factory_thing.Client.Reconnect.{accepts, connected, reconnect_lem}
use factory_thing.Client.Poll.{
  Device, slept, behind_value, live_value, live_node, live_nodes, live_round, live_group,
}
use factory_thing.Client.PollTotal.{Served, live_group_total}

module _ {F : Type 0} (print_f : F → Bytes) (to_json : Members F → Bytes) (c : Configuration)
    (g : Group) (w : Device F) where
  -- Whenever the thread connects, the server lets it; the clock is in range; and whatever is read of
  -- a node, if the read does not fail, fits its arrays.
  pub record Steady : Type 0 where
    pub ready : PollReady c g
    pub accepting : (calls : Calls) → accepts w.server calls ≡ true
    pub timely : (calls : Calls) → InRange (w.time calls)
    pub fitting : All (λ (k, d). (calls : Calls) → FitsRead print_f d.alias (w.read calls)) g.nodes

  -- The result, with a client that exists.
  abbrev Goes : {A : Type 0} → Fueled (A × ClientState) → Type 0
  Goes {A = A} m = (a : A) × (s : ClientState) × (m ≡ ok (some (a, s))) × (s.live ≡ true)

  module _ (accepting : (calls : Calls) → accepts w.server calls ≡ true) where
    behind_value-live :
        (v : Value F) (s : ClientState) → s.live ≡ true → (behind_value v s).live ≡ true
    behind_value-live unsupported s live = live
    behind_value-live (boolean x) s live = live
    behind_value-live (sbyte x) s live = live
    behind_value-live (byte x) s live = live
    behind_value-live (int16 x) s live = live
    behind_value-live (uint16 x) s live = live
    behind_value-live (int32 x) s live = live
    behind_value-live (uint32 x) s live = live
    behind_value-live (int64 x) s live = live
    behind_value-live (uint64 x) s live = live
    behind_value-live (float x) s live = live
    behind_value-live (double x) s live = live
    behind_value-live (string x) s live = live
    behind_value-live untyped s live = live

    live_value-Goes :
        (d : Node) (got : Gathered F) (s : ClientState) (v : Option (Value F))
        → s.live ≡ true
        → FitsRead print_f d.alias v
        → Goes (live_value print_f to_json c g w d got s v)
    unfolding live_value
    live_value-Goes d got s none live fits =
        let s1 = slept s in
        (
          got,
          connected w.server s1.calls,
          rw (reconnect_lem w.server 0 s1 live, accepting s1.calls) refl,
          refl,
        )
    live_value-Goes d got s (some v) live fits =
        let (next, e) = (poll_node-fits print_f d (some v) got).1 fits in
        (next, behind_value v s, rw e refl, behind_value-live v s live)

    live_node-Goes :
        (d : Node) (got : Gathered F) (s : ClientState)
        → s.live ≡ true
        → ((calls : Calls) → FitsRead print_f d.alias (w.read calls))
        → Goes (live_node print_f to_json c g w d got s)
    unfolding live_node use_client
    live_node-Goes d got s live fits =
        let s1 = record s { calls = read_value_attribute ∷ s.calls } in
        let (next, s2, e, live2) =
          live_value-Goes d got s1 (w.read s1.calls) live (fits s1.calls) in
        let called : use_client read_value_attribute s ≡ ok s1 = rw live refl in
        (next, s2, rw called e, live2)

    live_nodes-Goes :
        (nodes : Map Node) (got : Gathered F) (s : ClientState)
        → s.live ≡ true
        → All (λ (k, d). (calls : Calls) → FitsRead print_f d.alias (w.read calls)) nodes
        → Goes (live_nodes print_f to_json c g w nodes got s)
    unfolding live_nodes
    live_nodes-Goes [] got s live fits = (got, s, refl, live)
    live_nodes-Goes ((k, d) ∷ nodes) got s live (one, fits) =
        let (next, s1, e, live1) = live_node-Goes d got s live one in
        let (r, s2, e1, live2) = live_nodes-Goes nodes next s1 live1 fits in
        (r, s2, rw (e, e1) refl, live2)

  module _ (steady : Steady) where
    live_round-Goes : (s : ClientState) → s.live ≡ true → Goes (live_round print_f to_json c g w s)
    unfolding live_round
    live_round-Goes s live =
        let start : Gathered F = record { members = []; kvs = [] } in
        let (got, s1, e, live1) =
          live_nodes-Goes steady.accepting g.nodes start s live steady.fitting in
        let (ms, sent) : Returns (poll_message print_f to_json c g (w.time s1.calls) got) = (
          _,
          poll_message_lem print_f to_json c g (w.time s1.calls) steady.ready got.members got.kvs
              (steady.timely s1.calls),
        ) in
        (ms, slept s1, rw (e, sent) refl, live1)

    -- The fuel runs out, or there is a result.
    live_group_runs :
        (fuel : ℕ) (s : ClientState)
        → s.live ≡ true
        → (live_group print_f to_json c g w fuel s ≡ ok none)
          ⊎ Goes (live_group print_f to_json c g w fuel s)
    unfolding live_group
    live_group_runs zero s live = inl refl
    live_group_runs (suc fuel) s live =
        let (ms, s1, e, live1) = live_round-Goes s live in
        elim (Bool-cases (w.server.be_stop s1.calls)) [
          | inl stop ↦ inr (ms, s1, rw (e, stop) refl, live1)
          | inr on ↦ elim (live_group_runs fuel s1 live1) [
            | inl out ↦ inl (rw (e, on, out) refl)
            | inr (later, s2, e2, live2) ↦ inr (ms ++ later, s2, rw (e, on, e2) refl, live2)
          ]
        ]

    -- The rounds from one to another, which is the first to end with a stop, with what each makes of
    -- what it reads and of its time.
    pub data Reports (inputs : PollInputs F) : ℕ → ℕ → List Message → Type 0 where
      ended :
          (i : ℕ) (ms : List Message)
          → inputs.be_stop i ≡ true
          → ms ≡ round_of print_f to_json c g (inputs.time i) steady.ready (inputs.read i)
          → Reports inputs i i ms
      going :
          (i k : ℕ) (ms rest : List Message)
          → inputs.be_stop i ≡ false
          → ms ≡ round_of print_f to_json c g (inputs.time i) steady.ready (inputs.read i)
          → Reports inputs (i + 1) k rest
          → Reports inputs i k (ms ++ rest)

    round-round_of :
        (inputs : PollInputs F) (i : ℕ) (ms : List Message)
        → IsGiven print_f to_json c g w inputs
        → round print_f to_json c g inputs i ≡ ok ms
        → ms ≡ round_of print_f to_json c g (inputs.time i) steady.ready (inputs.read i)
    unfolding poll_round
    round-round_of inputs i ms given h =
        let (calls, e) = given.times i in
        let low = subst InRange (sym e) (steady.timely calls) in
        let (got, e1, h1) =
          bind-inv (poll_nodes print_f (inputs.read i) g.nodes (record { members = []; kvs = [] }))
            _ h in
        let fits = (poll_nodes_iff print_f (inputs.read i) g.nodes _).0 (got, e1) in
        ok-injective (
          sym h
          ∙ poll_round_lem print_f to_json c g (inputs.time i) steady.ready (inputs.read i) low
              fits)

    Sends-Reports :
        (inputs : PollInputs F) (i k : ℕ) (ms : List Message)
        → IsGiven print_f to_json c g w inputs
        → Sends print_f to_json c g inputs i k ms
        → Reports inputs i k ms
    Sends-Reports inputs i k ms given (last _ _ stop e) =
        ended i ms stop (round-round_of inputs i ms given e)
    Sends-Reports inputs i k ms given (more _ _ ms1 rest on e sent) =
        going i k ms1 rest on (round-round_of inputs i ms1 given e)
          (Sends-Reports inputs (i + 1) k rest given sent)

    -- What a thread has sent, from round `i` on.
    abbrev pub Reported : ℕ → List Message → Type 0
    Reported i ms =
        (inputs : PollInputs F) × (k : ℕ) × IsGiven print_f to_json c g w inputs
        × Reports inputs i k ms

    -- Where a signal comes by n calls, and the server lets the thread connect whenever a read has
    -- failed, fuel of n + 1 is enough for the thread of a group that is ready and whose keys are in
    -- order, if whatever is read fits its arrays: it ends, with a client that exists, when the signal
    -- has come, and has sent what its rounds make of values and times that the device gives.
    pub live_group_steady :
        (n fuel i : ℕ) (s : ClientState)
        → IsOrdered g.nodes
        → SignalBy w.server n
        → n - length s.calls < fuel
        → s.live ≡ true
        → (ms : List Message) × (s1 : ClientState) × (live_group print_f to_json c g w fuel s
            ≡ ok (some (ms, s1)))
          × (s1.live ≡ true)
          × (w.server.be_stop s1.calls ≡ true)
          × Reported i ms
    live_group_steady n fuel i s ordered stops enough live =
        let ends = live_group_total print_f to_json c g w n fuel i s ordered stops enough in
        elim (live_group_runs fuel s live) [
          | inl out ↦ absurd (rw out at ends)
          | inr (ms, s1, e, live1) ↦
              let (stop, (inputs, k, given, sent)) : Served print_f to_json c g w i (ms, s1) =
                rw e at ends in
              (ms, s1, e, live1, stop, (inputs, k, given, Sends-Reports inputs i k ms given sent))
        ]
