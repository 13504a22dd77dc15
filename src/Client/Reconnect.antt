-- ===== src/Client/Reconnect.antt =====
-- The loop by which the polling connects again.
use factory_thing.Base.{
  ℕ, suc, ◌<◌, ◌≡◌, refl, Bool, true, false, ◌&&◌, some, ◌∷◌, ◌==◌, arith, if◌then◌else◌, length,
  Bool-cases, inl, inr, ok, fault, deleted,
}
use factory_thing.Client.Defs.{
  get_endpoints, connect, service_browse, for_each_child_node, delete, sleep, Calls, Server, good,
  ClientState, use_client, delete_client, opcua_server_connect, opcua_server_browse, attempt,
  reconnect,
}

module _ (server : Server) where
  -- Both requests of an attempt after these calls succeed.
  abbrev pub accepts : Calls → Bool
  accepts calls =
      server.status (get_endpoints ∷ calls) == good
      && server.status (connect ∷ get_endpoints ∷ calls) == good

  -- The client after an attempt that succeeds.
  abbrev pub connected : Calls → ClientState
  connected calls = record {
    calls = for_each_child_node ∷ service_browse ∷ connect ∷ get_endpoints ∷ calls;
    live = true;
  }

  pub attempt_accepted :
      (s : ClientState)
      → s.live ≡ true
      → accepts s.calls ≡ true
      → attempt server s ≡ ok (good, connected s.calls)
  unfolding attempt opcua_server_connect opcua_server_browse use_client delete_client
  attempt_accepted s live both = ground arith

  -- One that fails leaves the client deleted.
  pub attempt_refused :
      (s : ClientState)
      → s.live ≡ true
      → accepts s.calls ≡ false
      → (state : ℕ) × (s1 : ClientState) × (attempt server s ≡ ok (state, s1))
        × (state == good ≡ false)
        × (s1.live ≡ false)
        × (length s.calls < length s1.calls)
  unfolding attempt opcua_server_connect opcua_server_browse use_client delete_client
  attempt_refused s live one = elim (Bool-cases (server.status (get_endpoints ∷ s.calls) == good)) [
    | inl found ↦ (
      server.status (connect ∷ get_endpoints ∷ s.calls),
      record { calls = sleep 2 ∷ delete ∷ connect ∷ get_endpoints ∷ s.calls; live = false },
      ground arith,
      ground arith,
      refl,
      omega arith,
    )
    | inr lost ↦ (
      server.status (get_endpoints ∷ s.calls),
      record { calls = sleep 2 ∷ delete ∷ get_endpoints ∷ s.calls; live = false },
      ground arith,
      lost,
      refl,
      omega arith,
    )
  ]

  pub attempt-deleted : (s : ClientState) → s.live ≡ false → attempt server s ≡ fault deleted
  unfolding attempt opcua_server_connect use_client
  attempt-deleted s gone = ground arith

  -- From a client that exists, the loop of the polling returns exactly if its first attempt
  -- succeeds, with the client connected. Otherwise the second attempt uses the client, which the
  -- first has deleted. Fuel for two rounds shows it.
  pub reconnect_lem :
      (fuel : ℕ) (s : ClientState)
      → s.live ≡ true
      → reconnect server (suc (suc fuel)) s
        ≡ (if accepts s.calls then ok (some (connected s.calls)) else fault deleted)
  unfolding reconnect
  reconnect_lem fuel s live = elim (Bool-cases (accepts s.calls)) [
    | inl both ↦ rw (both, attempt_accepted s live both) refl
    | inr one ↦ rw one (second one)
  ]
    where
      second : accepts s.calls ≡ false → reconnect server (suc (suc fuel)) s ≡ fault deleted
      second refused =
          let (state, s1, e, bad, gone, _) = attempt_refused s live refused in
          rw (e, bad, attempt-deleted s1 gone) refl
