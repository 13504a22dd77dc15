-- ===== src/Client/MainEnds.antt =====
-- `main` comes to its end.
use factory_thing.Base.{
  ℕ, zero, suc, ◌-◌, ◌<◌, ◌≡◌, ◌⊎◌, refl, true, false, not, ◌&&◌, none, some, [], ◌∷◌, arith,
  length, Bool-cases, inl, inr, Run, ok, fault, deleted, ◌>>=◌,
}
use factory_thing.CString.Defs.{Bytes, lit, matches}
use factory_thing.Config.Defs.{Configuration, Group, Map}
use factory_thing.Config.Modes.{poll}
use factory_thing.Monitor.Start.{Followed, discards, monitor_start}
use factory_thing.Client.Defs.{
  ClientCall, mqtt_run, tcp_run, pthread_cancel, pthread_join, delete, new_subscription,
  add_monitored_item, publish_request, usleep, disconnect, sleep, Calls, Server, ClientState,
  use_client, delete_client, start,
}
use factory_thing.Client.Start.{SignalBy, start_total}
use factory_thing.Client.Main.{
  items, add_items, start_monitoring, request, request_loop, create_threads, end_threads,
  finish_client, serve, run_main,
}

use_client-live :
    (call : ClientCall) (s : ClientState)
    → s.live ≡ true
    → use_client call s ≡ ok (record s { calls = call ∷ s.calls })
unfolding use_client
use_client-live call s live = rw live refl

module _ (server : Server) (zero_thread : Run (Unit {0})) (alloc : Bytes → Bytes)
    (c : Configuration) where
  add_items-live :
      (count : ℕ) (s : ClientState)
      → s.live ≡ true
      → (s1 : ClientState) × (add_items count s ≡ ok s1) × (s1.live ≡ true)
  unfolding add_items
  add_items-live zero s live = (s, refl, live)
  add_items-live (suc count) s live =
      let (s1, e, live1) =
        add_items-live count (record s { calls = add_monitored_item ∷ s.calls }) live in
      (s1, rw (use_client-live add_monitored_item s live) e, live1)

  -- The reading of the groups that monitor_start does comes to its end.
  abbrev pub Watches : Map Group → Type 0
  Watches groups = (watched : Followed) × (monitor_start alloc c groups ≡ ok watched)

  start_monitoring-live :
      (groups : Map Group) (s : ClientState)
      → Watches groups
      → s.live ≡ true
      → (s1 : ClientState) × (start_monitoring server zero_thread alloc c groups s ≡ ok s1)
        × (s1.live ≡ true)
  unfolding start_monitoring
  start_monitoring-live groups s (watched, read) live = elim (Bool-cases (discards alloc c poll)) [
    | inl e ↦ (s, rw e refl, live)
    | inr e ↦
        let (s1, e1, live1) =
          add_items-live (items server zero_thread alloc c watched.followed)
            (record s { calls = new_subscription ∷ s.calls }) live in
        (s1, rw (e, use_client-live new_subscription s live, read) e1, live1)
  ]

  request-live :
      (s : ClientState)
      → s.live ≡ true
      → (s1 : ClientState) × (request server zero_thread alloc c s ≡ ok s1)
        × (s1.live ≡ true)
        × (length s.calls < length s1.calls)
  unfolding request use_client
  request-live s live =
      elim (Bool-cases (not c.asyc_request_supported && matches c.method (lit "poll"))) [
        | inl e ↦ (record s { calls = sleep 2 ∷ s.calls }, rw e refl, live, omega arith)
        | inr e ↦
            (record s { calls = publish_request ∷ s.calls }, rw (e, live) refl, live, omega arith)
      ]

  request_loop-live :
      (n fuel : ℕ) (s : ClientState)
      → SignalBy server n
      → n - length s.calls < fuel
      → s.live ≡ true
      → (s1 : ClientState) × (request_loop server zero_thread alloc c fuel s ≡ ok (some s1))
        × (s1.live ≡ true)
  unfolding request_loop
  request_loop-live n zero s stops h live = absurd (omega arith)
  request_loop-live n (suc fuel) s stops h live = elim (Bool-cases (server.be_stop s.calls)) [
    | inl e ↦ (s, rw e refl, live)
    | inr on ↦
        let (s1, e1, live1, longer) = request-live (record s { calls = usleep ∷ s.calls }) live in
        let (s2, e2, live2) =
          request_loop-live n fuel s1 stops (grind (arith, stops s.calls, longer)) live1 in
        (s2, rw (on, e1) e2, live2)
  ]

  -- The threads for MQTT and TCP have been cancelled and waited for, and after that the client has
  -- been disconnected and deleted, which are the last calls.
  abbrev pub closed : ClientState → ClientState
  closed s = record {
    calls =
        delete
        ∷ disconnect
        ∷ pthread_join none
        ∷ pthread_join (some tcp_run)
        ∷ pthread_join (some mqtt_run)
        ∷ pthread_cancel none
        ∷ pthread_cancel (some tcp_run)
        ∷ pthread_cancel (some mqtt_run)
        ∷ s.calls;
    live = false;
  }

  finish_client-live :
      (s : ClientState)
      → zero_thread ≡ ok tt
      → s.live ≡ true
      → (do
        s1 ← end_threads server zero_thread alloc c s
        s2 ← finish_client server zero_thread alloc c s1
        ok (some s2))
        ≡ ok (some (closed s))
  unfolding finish_client use_client delete_client
  finish_client-live s returns live = rw (returns, live) refl

  -- Where a signal comes by n calls, fuel of n + 1 is enough for `main` from a client that exists: no
  -- call is made on a deleted client, and it is deleted at the end.
  serve_total :
      (groups : Map Group) (n fuel : ℕ) (s : ClientState)
      → Watches groups
      → zero_thread ≡ ok tt
      → SignalBy server n
      → n < fuel
      → s.live ≡ true
      → (s1 : ClientState) × (serve server zero_thread alloc c groups fuel s
          ≡ ok (some (closed s1)))
  unfolding serve
  serve_total groups n fuel s watches returns stops h live =
      let (s1, e1, live1) = start_monitoring-live groups s watches live in
      let (s2, e2, live2) =
        request_loop-live n fuel (create_threads server zero_thread alloc c s1) stops (omega arith)
          live1 in
      (s2, rw (e1, e2) (finish_client-live s2 returns live2))

  -- `beStop`, once it is set, stays set.
  abbrev pub StaysSet : Type 0
  StaysSet =
      (call : ClientCall) (calls : Calls)
      → server.be_stop calls ≡ true
      → server.be_stop (call ∷ calls) ≡ true

  serve-deleted :
      (groups : Map Group) (fuel : ℕ) (s : ClientState)
      → zero_thread ≡ ok tt
      → s.live ≡ false
      → StaysSet
      → server.be_stop s.calls ≡ true
      → serve server zero_thread alloc c groups (suc fuel) s ≡ fault deleted
  unfolding serve start_monitoring request_loop finish_client use_client
  serve-deleted groups fuel s returns gone sticky stop = elim (Bool-cases (discards alloc c poll)) [
    | inl e ↦ rw (e, sticky _ _ (sticky _ _ (sticky _ _ stop)), returns, gone) refl
    | inr e ↦ rw (e, gone) refl
  ]

  -- The loop that connects has ended on a signal, with a deleted client.
  abbrev pub Interrupted : ℕ → Type 0
  Interrupted fuel =
      (state : ℕ) × (s : ClientState) × (start server fuel [] ≡ ok (some (state, s)))
      × (s.live ≡ false)
      × (server.be_stop s.calls ≡ true)

  -- Where a signal comes by n calls and `beStop` then stays set, fuel of n + 1 is enough for `main`, if
  -- pthread_cancel and pthread_join return for the number 0. Either it connects, makes no call on a
  -- deleted client, and ends by cancelling and joining the threads for MQTT and TCP, disconnecting and deleting the
  -- client; or the signal comes before a connection is there, and `main` calls the library with a
  -- client that has been deleted.
  pub run_main_total :
      (groups : Map Group) (n fuel : ℕ)
      → Watches groups
      → zero_thread ≡ ok tt
      → StaysSet
      → SignalBy server n
      → n < fuel
      → ((s : ClientState) × (run_main server zero_thread alloc c groups fuel
            ≡ ok (some (closed s))))
        ⊎ (Interrupted fuel × (run_main server zero_thread alloc c groups fuel ≡ fault deleted))
  unfolding run_main
  run_main_total groups n zero watches returns sticky stops h = absurd (omega arith)
  run_main_total groups n (suc fuel) watches returns sticky stops h =
      let (state, s, e, settled) = start_total server n (suc fuel) [] stops (omega arith) in
      elim settled [
        | inl (_, live) ↦
            let (s1, e1) = serve_total groups n (suc fuel) s watches returns stops h live in
            inl (s1, rw e e1)
        | inr (gone, stop) ↦
            inr (
              (state, s, e, gone, stop),
              rw e (serve-deleted groups fuel s returns gone sticky stop),
            )
      ]
