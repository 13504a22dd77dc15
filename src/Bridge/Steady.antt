-- ===== src/Bridge/Steady.antt =====
-- The threads that poll, where the values fit and the server lets them connect again.
use factory_thing.Base.{ℕ, ◌-◌, ◌<◌, ◌≡◌, true, some, List, [], ◌∷◌, All, length, ok}
use factory_thing.CString.Defs.{Bytes}
use factory_thing.Json.{JsonLib}
use factory_thing.Config.Defs.{Configuration, Group, Map}
use factory_thing.Config.Modes.{poll}
use factory_thing.Config.Load.{go, System, Loaded, config}
use factory_thing.Config.Bounds.{config-safe}
use factory_thing.Config.Ordered.{NodesOrdered, config-NodesOrdered}
use factory_thing.Monitor.Value.{Members}
use factory_thing.Monitor.Publish.{Message}
use factory_thing.Monitor.Sendable.{InRange}
use factory_thing.Monitor.Start.{Followed, opcua_poll}
use factory_thing.Client.Defs.{Calls, ClientState}
use factory_thing.Client.Start.{SignalBy}
use factory_thing.Client.Reconnect.{accepts}
use factory_thing.Client.Poll.{Device, live_group}
use factory_thing.Client.PollSteady.{Steady, Reported, live_group_steady}
use factory_thing.Bridge.Defs.{initial}
use factory_thing.Bridge.Ordered.{opcua_poll-NodesOrdered}
use factory_thing.Bridge.Reads.{AllReadable, opcua_poll-Returns, initial-FitsArrays}
use factory_thing.Bridge.Fitting.{Fitting, AllFitting, opcua_poll-Fitting}

module _ {F : Type 0} (print_f : F → Bytes) (to_json : Members F → Bytes) (c : Configuration)
    (w : Device F) where
  -- The thread of each group ends in time, and reports.
  abbrev pub AllReport : ℕ → ClientState → Map Group → Type 0
  AllReport fuel s groups =
      All
        (λ (k, g).
          (steady : Steady print_f to_json c g w) × (ms : List Message) × (s1 : ClientState)
          × (live_group print_f to_json c g w fuel s ≡ ok (some (ms, s1)))
          × (s1.live ≡ true)
          × (w.server.be_stop s1.calls ≡ true)
          × Reported print_f to_json c g w steady 0 ms)
        groups

module _ {F : Type 0} (J : JsonLib) (os : System) (alloc : Bytes → Bytes) (print_f : F → Bytes)
    (to_json : Members F → Bytes) (w : Device F)
    (accepting : (calls : Calls) → accepts w.server calls ≡ true)
    (timely : (calls : Calls) → InRange (w.time calls)) where
  groups_report :
      (c : Configuration) (n fuel : ℕ) (s : ClientState) (groups : Map Group)
      → NodesOrdered groups
      → All (λ (k, g). Fitting print_f to_json c w g) groups
      → SignalBy w.server n
      → n - length s.calls < fuel
      → s.live ≡ true
      → AllReport print_f to_json c w fuel s groups
  groups_report c n fuel s [] ordered fits stops enough live = _
  groups_report c n fuel s ((k, g) ∷ groups) (one, ordered) ((ready, fit), fits) stops enough live =
      let steady : Steady print_f to_json c g w = record {
        ready = ready;
        accepting = accepting;
        timely = timely;
        fitting = fit;
      } in
      let (ms, s1, e, live1, stop, sent) =
        live_group_steady print_f to_json c g w steady n fuel 0 s one stops enough live in
      (
        (steady, ms, s1, e, live1, stop, sent),
        groups_report c n fuel s groups ordered fits stops enough live,
      )

  -- Where the server always lets a client connect, the clock is in range, a signal comes by n calls,
  -- each loaded group of the mode for polling has its flag `enable` set and, if that is true, node
  -- ids that getUA_NodeID gets through and all that a round uses, and what is read fits the arrays of
  -- its nodes: opcua_poll comes to its end, and fuel of n + 1 is enough for the thread of each group
  -- that it makes one for, run alone from a client that exists. The thread does not fault, ends when
  -- the signal has come, with a client that exists, and has sent exactly what its rounds make of
  -- values and times that the device gives.
  pub polled_steady :
      (argv : List Bytes) (l : Loaded) (n fuel : ℕ) (s : ClientState)
      → config J os argv initial ≡ go l
      → AllReadable alloc poll l.groups
      → AllFitting print_f to_json l.configuration w l.groups
      → SignalBy w.server n
      → n - length s.calls < fuel
      → s.live ≡ true
      → (r : Followed) × (opcua_poll alloc l.configuration l.groups ≡ ok r)
        × AllReport print_f to_json l.configuration w fuel s r.followed
  polled_steady argv l n fuel s loaded readable fits stops enough live =
      let whole = (config-safe J os argv initial initial-FitsArrays loaded).1 in
      let (r, polled) = opcua_poll-Returns alloc l.configuration l.groups whole readable in
      (
        r,
        polled,
        groups_report l.configuration n fuel s r.followed
            (opcua_poll-NodesOrdered alloc l.configuration l.groups r
              (config-NodesOrdered J os argv initial _ loaded) polled)
            (opcua_poll-Fitting print_f to_json l.configuration w alloc l.groups r polled fits)
            stops enough live,
      )
