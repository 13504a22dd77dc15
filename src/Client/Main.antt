-- ===== src/Client/Main.antt =====
-- The calls that `main` makes on the client, from the start to the end.
use factory_thing.Base.{
  length, ◌+◌, ℕ, zero, suc, not, ◌&&◌, Option, none, some, [], ◌∷◌, if◌then◌else◌, Run, ok, ◌>>=◌,
}
use factory_thing.CString.Defs.{Bytes, lit, matches}
use factory_thing.Config.Defs.{Configuration, Group, Map}
use factory_thing.Config.Modes.{poll}
use factory_thing.Monitor.Start.{discards, monitor_start}
use factory_thing.Client.Defs.{
  mqtt_run, tcp_run, opcua_poll_run, pthread_create, pthread_cancel, pthread_join, new_subscription,
  add_monitored_item, publish_request, usleep, disconnect, sleep, Server, ClientState, use_client,
  delete_client, start,
}

-- UA_Client_Subscriptions_addMonitoredItem, for so many nodes.
unfoldable pub add_items : ℕ → ClientState → Run ClientState
unfolding use_client
add_items zero s = ok s
add_items (suc items) s = do s1 ← use_client add_monitored_item s; add_items items s1

-- `zero_thread` is what pthread_cancel and pthread_join do for the number 0, on which POSIX is silent:
-- they may crash.
module _ (server : Server) (zero_thread : Run (Unit {0})) (alloc : Bytes → Bytes)
    (c : Configuration) where
  -- How many nodes the groups have.
  abbrev pub items : Map Group → ℕ
  items [] = 0
  items ((k, g) ∷ groups) = length g.nodes + items groups

  -- monitor_start, with its calls: a subscription, and an item for each node of the groups that the
  -- server watches.
  unfoldable pub start_monitoring : Map Group → ClientState → Run ClientState
  unfolding use_client add_items
  start_monitoring groups s = if discards alloc c poll then ok s else (do
    s1 ← use_client new_subscription s
    watched ← monitor_start alloc c groups
    add_items (items watched.followed) s1)

  -- The body of the loop: nothing is requested if all is polled.
  unfoldable pub request : ClientState → Run ClientState
  unfolding use_client
  request s =
      if not c.asyc_request_supported && matches c.method (lit "poll")
      then ok (record s { calls = sleep 2 ∷ s.calls })
      else use_client publish_request s

  -- while (!beStop) { … }; `none` if the fuel runs out.
  unfoldable pub request_loop : ℕ → ClientState → Run (Option ClientState)
  unfolding request
  request_loop zero s = ok none
  request_loop (suc fuel) s =
      if server.be_stop s.calls
      then ok (some s)
      else (do s1 ← request (record s { calls = usleep ∷ s.calls }); request_loop fuel s1)

  -- The thread for AMQP is not made.
  abbrev pub create_threads : ClientState → ClientState
  create_threads s = record s {
    calls =
        pthread_create opcua_poll_run ∷ pthread_create tcp_run ∷ pthread_create mqtt_run ∷ s.calls;
  }

  -- The threads for MQTT and TCP are cancelled, and so is the one that is not there; then they are
  -- waited for. That of the polling goes on.
  abbrev pub end_threads : ClientState → Run ClientState
  end_threads s = do
    u ← zero_thread
    ok (record s {
      calls =
          pthread_join none
          ∷ pthread_join (some tcp_run)
          ∷ pthread_join (some mqtt_run)
          ∷ pthread_cancel none
          ∷ pthread_cancel (some tcp_run)
          ∷ pthread_cancel (some mqtt_run)
          ∷ s.calls;
    })

  unfoldable pub finish_client : ClientState → Run ClientState
  unfolding use_client delete_client
  finish_client s = do s1 ← use_client disconnect s; delete_client s1

  -- From the connected client on.
  unfoldable pub serve : Map Group → ℕ → ClientState → Run (Option ClientState)
  unfolding start_monitoring request_loop finish_client
  serve groups fuel s = do
    s1 ← start_monitoring groups s
    end ← request_loop fuel (create_threads s1)
    elim end [
      | none ↦ ok none
      | some s2 ↦ do s3 ← end_threads s2; s4 ← finish_client s3; ok (some s4)
    ]

  -- main once the configuration is read; both loops have the fuel.
  unfoldable pub run_main : Map Group → ℕ → Run (Option ClientState)
  unfolding start serve
  run_main groups fuel = do
    started ← start server fuel []
    elim started [ none ↦ ok none | some (state, s) ↦ serve groups fuel s ]
