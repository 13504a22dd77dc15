-- ===== src/Client/Poll.antt =====
-- `opcua_poll_group` with its client: the reads, and the connection that a failed read makes again.
use factory_thing.Base.{
  ℕ, zero, suc, Option, none, some, List, [], ◌∷◌, ◌++◌, if◌then◌else◌, ok, ◌>>=◌, Fueled, and_then,
}
use factory_thing.CString.Defs.{Bytes}
use factory_thing.Int.{ℤ}
use factory_thing.Config.Defs.{Configuration, Group, Node, Map}
use factory_thing.Monitor.Value.{Value, unsupported, Members}
use factory_thing.Monitor.Publish.{Message}
use factory_thing.Monitor.Round.{Gathered, poll_node, poll_message}
use factory_thing.Client.Defs.{
  read_value_attribute, usleep, Calls, Server, ClientState, use_client, reconnect,
}

-- What a polling thread meets, each by the calls so far: the server; what a read gives, where
-- `none` is a status that is not good; and `epoch()`.
pub record Device (F : Type 0) : Type 0 where
  pub server : Server
  pub read : Calls → Option (Value F)
  pub time : Calls → ℤ

-- usleep(p->intervalUSec)
abbrev pub slept : ClientState → ClientState
slept s = record s { calls = usleep ∷ s.calls }

-- Only behind a value that is not supported does the thread sleep within a round.
abbrev pub behind_value : {F : Type 0} → Value F → ClientState → ClientState
behind_value unsupported s = slept s
behind_value _ s = s

module _ {F : Type 0} (print_f : F → Bytes) (to_json : Members F → Bytes) (c : Configuration)
    (g : Group) (w : Device F) where
  -- From the result of the read on. Two rounds of fuel are enough for `reconnect`: the second always
  -- ends it.
  unfoldable pub live_value :
      Node → Gathered F → ClientState → Option (Value F) → Fueled (Gathered F × ClientState)
  live_value d got s none = and_then (reconnect w.server 2 (slept s)) (λ s1. ok (some (got, s1)))
  live_value d got s (some v) = do
    next ← poll_node print_f d (some v) got
    ok (some (next, behind_value v s))

  -- UA_Client_readValueAttribute, and the rest of the inner loop's body.
  unfoldable pub live_node : Node → Gathered F → ClientState → Fueled (Gathered F × ClientState)
  unfolding live_value
  live_node d got s = do
    s1 ← use_client read_value_attribute s
    live_value d got s1 (w.read s1.calls)

  unfoldable pub live_nodes :
      Map Node → Gathered F → ClientState → Fueled (Gathered F × ClientState)
  unfolding live_node
  live_nodes [] got s = ok (some (got, s))
  live_nodes ((k, d) ∷ nodes) got s =
      and_then (live_node d got s) (λ (next, s1). live_nodes nodes next s1)

  -- The body of the do-while loop: the messages of the round.
  unfoldable pub live_round : ClientState → Fueled (List Message × ClientState)
  unfolding live_nodes
  live_round s = and_then (live_nodes g.nodes (record { members = []; kvs = [] }) s) (λ (got, s1).
      do ms ← poll_message print_f to_json c g (w.time s1.calls) got; ok (some (ms, slept s1)))

  -- do { … } while (!beStop)
  unfoldable pub live_group : ℕ → ClientState → Fueled (List Message × ClientState)
  unfolding live_round
  live_group zero s = ok none
  live_group (suc fuel) s = and_then (live_round s) (λ (ms, s1).
      let rest = live_group fuel s1 in
      if w.server.be_stop s1.calls
      then ok (some (ms, s1))
      else and_then rest (λ (later, s2). ok (some (ms ++ later, s2))))
