-- ===== src/Bridge/Total.antt =====
-- The whole bridge, from its arguments on.
use factory_thing.Base.{ℕ, ◌≡◌, ◌⊎◌, some, [], ◌∷◌, Run, ok, fault, deleted, Fueled}
use factory_thing.CString.Defs.{Bytes}
use factory_thing.Json.{JsonLib}
use factory_thing.Config.Defs.{Group, Map}
use factory_thing.Config.Load.{Outcome, go, refused, faulted, System, Loaded}
use factory_thing.Monitor.Value.{Members}
use factory_thing.Client.Defs.{Server, ClientState}
use factory_thing.Client.MainEnds.{closed, Interrupted}
use factory_thing.Client.Poll.{Device, live_group}
use factory_thing.Client.PollEnds.{Ends}
use factory_thing.Client.PollTotal.{Served}
use factory_thing.Bridge.Defs.{Exit, not_configured, served, with_configuration}

module _ (J : JsonLib) (os : System) (server : Server) (zero_thread : Run (Unit {0}))
    (alloc : Bytes → Bytes) where
  abbrev continues : ℕ → Outcome Loaded → Fueled Exit
  continues = with_configuration J os server zero_thread alloc

  -- What an outcome of config leads to: it refuses, and nothing is done; it faults; or `main` runs
  -- with what is loaded, up to its last call, or up to a call on a deleted client.
  abbrev pub Runs : ℕ → Outcome Loaded → Fueled Exit → Type 0
  Runs fuel refused run = run ≡ ok (some not_configured)
  Runs fuel (faulted why) run = run ≡ fault why
  Runs fuel (go l) run =
      ((s : ClientState) × (run
          ≡ ok (some (served (closed server zero_thread alloc l.configuration s)))))
      ⊎ (Interrupted server zero_thread alloc l.configuration fuel × (run ≡ fault deleted))

module _ {F : Type 0} (J : JsonLib) (os : System) (alloc : Bytes → Bytes) (print_f : F → Bytes)
    (to_json : Members F → Bytes) (w : Device F) where
  -- The threads of these groups end, each from any state of the client.
  abbrev pub AllEnd : Loaded → ℕ → ClientState → Map Group → Type 0
  AllEnd l fuel s [] = Unit
  AllEnd l fuel s ((k, g) ∷ groups) =
      Ends (live_group print_f to_json l.configuration g w fuel s)
        (Served print_f to_json l.configuration g w 0)
      × AllEnd l fuel s groups
