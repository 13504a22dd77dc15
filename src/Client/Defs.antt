-- ===== src/Client/Defs.antt =====
-- The calls of the client library, and the loops that connect.
use factory_thing.Base.{
  ℕ, zero, suc, Bool, true, false, ◌&&◌, not, Option, none, some, List, ◌∷◌, ◌==◌, if◌then◌else◌,
  Run, ok, fault, deleted, ◌>>=◌,
}

-- The threads that `main` makes.
pub data ThreadName : Type 0 where
  mqtt_run tcp_run opcua_poll_run : ThreadName

-- The calls that touch a client, the sleeping between two attempts, reads or rounds, and those that
-- make and end a thread; `none` is the number 0, which is that of no thread.
pub data ClientCall : Type 0 where
  new get_endpoints connect service_browse for_each_child_node : ClientCall
  new_subscription add_monitored_item publish_request disconnect delete : ClientCall
  read_value_attribute usleep : ClientCall
  sleep : ℕ → ClientCall
  pthread_create : ThreadName → ClientCall
  pthread_cancel pthread_join : Option ThreadName → ClientCall

-- The last call first.
abbrev pub Calls : Type 0
Calls = List ClientCall

-- What the server answers to the last call, and whether a signal has set `beStop` by then. The
-- status UA_STATUSCODE_GOOD is 0.
pub record Server : Type 0 where
  pub status : Calls → ℕ
  pub be_stop : Calls → Bool

abbrev pub good : ℕ
good = 0

-- The calls so far, and whether the object that `client` points to exists.
pub record ClientState : Type 0 where
  pub calls : Calls
  pub live : Bool

-- A call on the client.
unfoldable pub use_client : ClientCall → ClientState → Run ClientState
use_client call s = if s.live then ok (record s { calls = call ∷ s.calls }) else fault deleted

-- UA_Client_delete(client)
unfoldable pub delete_client : ClientState → Run ClientState
unfolding use_client
delete_client s = do s1 ← use_client delete s; ok (record s1 { live = false })

module _ (server : Server) where
  -- opcua_server_connect(client): its status, and the client deleted if that is not good.
  unfoldable pub opcua_server_connect : ClientState → Run (ℕ × ClientState)
  unfolding use_client delete_client
  opcua_server_connect s = do
    s1 ← use_client get_endpoints s
    let retval = server.status s1.calls
    if not (retval == good) then (do s2 ← delete_client s1; ok (retval, s2)) else (do
      s2 ← use_client connect s1
      let connected = server.status s2.calls
      if not (connected == good)
          then (do s3 ← delete_client s2; ok (connected, s3))
          else ok (connected, s2))

  -- opcua_server_browse(client): what is found is only printed, and the status is good.
  unfoldable pub opcua_server_browse : ClientState → Run (ℕ × ClientState)
  unfolding use_client
  opcua_server_browse s = do
    s1 ← use_client service_browse s
    s2 ← use_client for_each_child_node s1
    ok (good, s2)

  -- The body of both loops: connect, then browse or sleep.
  unfoldable pub attempt : ClientState → Run (ℕ × ClientState)
  unfolding opcua_server_connect opcua_server_browse
  attempt s = do
    (state, s1) ← opcua_server_connect s
    if state == good
        then opcua_server_browse s1
        else ok (state, record s1 { calls = sleep 2 ∷ s1.calls })

  -- The loop of `main`: every attempt has a new client. `none` if the fuel runs out.
  unfoldable pub start : ℕ → Calls → Run (Option (ℕ × ClientState))
  unfolding attempt
  start zero calls = ok none
  start (suc fuel) calls = do
    (state, s) ← attempt (record { calls = new ∷ calls; live = true })
    let again = start fuel s.calls
    if not (server.be_stop s.calls) && not (state == good) then again else ok (some (state, s))

  -- The loop of `opcua_poll_group` behind a read that fails: the client stays the same.
  unfoldable pub reconnect : ℕ → ClientState → Run (Option ClientState)
  unfolding attempt
  reconnect zero s = ok none
  reconnect (suc fuel) s = do
    (state, s1) ← attempt s
    let again = reconnect fuel s1
    if not (state == good) then again else ok (some s1)
