-- ===== src/Bridge/Defs.antt =====
-- `main` of client-main.cpp, with the configuration that it starts from.
use factory_thing.Base.{ℕ, some, List, [], Run, ok, fault, Fueled, and_then}
use factory_thing.CString.Defs.{Bytes}
use factory_thing.Json.{JsonLib}
use factory_thing.Config.Defs.{zero_configuration}
use factory_thing.Config.Load.{Outcome, go, refused, faulted, System, Loaded, config}
use factory_thing.Client.Defs.{Server, ClientState}
use factory_thing.Client.Main.{run_main}

-- The globals as the program is loaded.
abbrev pub initial : Loaded
initial = record { configuration = zero_configuration; groups = [] }

-- How `main` ends: without a configuration, or with a client in a state. It returns 0 either way.
pub data Exit : Type 0 where
  not_configured : Exit
  served : ClientState → Exit

module _ (J : JsonLib) (os : System) (server : Server) (zero_thread : Run (Unit {0}))
    (alloc : Bytes → Bytes) where
  -- What follows the configuration.
  unfoldable pub with_configuration : ℕ → Outcome Loaded → Fueled Exit
  unfolding run_main
  with_configuration fuel refused = ok (some not_configured)
  with_configuration fuel (faulted why) = fault why
  with_configuration fuel (go l) =
      and_then (run_main server zero_thread alloc l.configuration l.groups fuel)
        (λ s. ok (some (served s)))

  unfoldable pub main_program : ℕ → List Bytes → Fueled Exit
  unfolding with_configuration
  main_program fuel argv = with_configuration fuel (config J os argv initial)
