-- ===== src/Client/Start.antt =====
-- The loop of `main` that connects.
use factory_thing.Base.{
  ℕ, zero, suc, ◌-◌, ◌≤◌, ◌<◌, ◌≡◌, ◌⊎◌, refl, true, false, some, ◌∷◌, arith, length, Bool-cases,
  inl, inr, ok,
}
use factory_thing.Client.Defs.{new, Calls, Server, good, ClientState, start}
use factory_thing.Client.Reconnect.{accepts, connected, attempt_accepted, attempt_refused}

-- A signal sets `beStop` by the time that so many calls are made.
abbrev pub SignalBy : Server → ℕ → Type 0
SignalBy server n = (calls : Calls) → n ≤ length calls → server.be_stop calls ≡ true

module _ (server : Server) where
  -- What the loop leaves: a connected client and a good status, or a client that is deleted, which
  -- only a signal brings about.
  abbrev pub Settled : ℕ → ClientState → Type 0
  Settled state s =
      ((state ≡ good) × (s.live ≡ true)) ⊎ ((s.live ≡ false) × (server.be_stop s.calls ≡ true))

  -- Where a signal comes by n calls, fuel of n + 1 is enough for the loop of `main`, and it does
  -- not fault. It ends with the status good and a client that exists, or, when a signal has come,
  -- possibly with a client that has been deleted; `main` uses it all the same.
  pub start_total :
      (n fuel : ℕ) (calls : Calls)
      → SignalBy server n
      → n - length calls < fuel
      → (state : ℕ) × (s : ClientState) × (start server fuel calls ≡ ok (some (state, s)))
        × Settled state s
  unfolding start
  start_total n zero calls stops h = absurd (omega arith)
  start_total n (suc fuel) calls stops h = elim (Bool-cases (accepts server (new ∷ calls))) [
    | inl both ↦ (
      good,
      connected server (new ∷ calls),
      rw (attempt_accepted server (record { calls = new ∷ calls; live = true }) refl both)
          (ground arith),
      inl (refl, refl),
    )
    | inr one ↦
        let (state, s, e, bad, gone, longer) =
          attempt_refused server (record { calls = new ∷ calls; live = true }) refl one in
        elim (Bool-cases (server.be_stop s.calls)) [
          | inl stop ↦ (state, s, rw (e, stop) refl, inr (gone, stop))
          | inr on ↦
              let (state1, s1, e1, settled) =
                start_total n fuel s.calls stops (grind (arith, stops s.calls, longer)) in
              (state1, s1, rw (e, on, bad) e1, settled)
        ]
  ]
