-- ===== src/Client/PollTotal.antt =====
-- The thread of a group ends, and what it has sent by then.
use factory_thing.Base.{ℕ, ◌-◌, ◌<◌, ◌≡◌, refl, some, none, length, ok, fault, List, Fueled}
use factory_thing.CString.Defs.{Bytes}
use factory_thing.Config.Defs.{Configuration, Group}
use factory_thing.Config.Maps.{IsOrdered}
use factory_thing.Monitor.Value.{Members}
use factory_thing.Monitor.Publish.{Message}
use factory_thing.Client.Defs.{ClientState}
use factory_thing.Client.Start.{SignalBy}
use factory_thing.Client.Poll.{Device, live_group}
use factory_thing.Client.PollRefines.{Refined, live_group_refines}
use factory_thing.Client.PollEnds.{Ends, Stops, live_group-Ends}

Ends_and :
    {A : Type 0} (P Q : A → Type 0) (m : Fueled A)
    → Ends m P
    → ((a : A) → m ≡ ok (some a) → Q a)
    → Ends m (λ a. P a × Q a)
Ends_and P Q (ok none) ends also = ends
Ends_and P Q (ok (some a)) ends also = (ends, also a refl)
Ends_and P Q (fault why) ends also = _

module _ {F : Type 0} (print_f : F → Bytes) (to_json : Members F → Bytes) (c : Configuration)
    (g : Group) (w : Device F) where
  -- A signal has come, and the messages are those of a loop over rounds, from round `i` on.
  abbrev pub Served : ℕ → List Message × ClientState → Type 0
  Served i r = Stops print_f to_json c g w r × Refined print_f to_json c g w i r.0

  -- Where a signal comes by n calls, fuel of n + 1 is enough for the thread of a group whose keys are
  -- in order. Either it faults, or it ends when the signal has come, and has sent what the loop over
  -- rounds sends for reads and times that the device gives: a connection that is lost and made
  -- again only leaves out values.
  pub live_group_total :
      (n fuel i : ℕ) (s : ClientState)
      → IsOrdered g.nodes
      → SignalBy w.server n
      → n - length s.calls < fuel
      → Ends (live_group print_f to_json c g w fuel s) (Served i)
  live_group_total n fuel i s ordered stops enough =
      Ends_and (Stops print_f to_json c g w) (λ r. Refined print_f to_json c g w i r.0) _
        (live_group-Ends print_f to_json c g w n fuel s stops enough)
        (λ (ms, s1) e. live_group_refines print_f to_json c g w fuel i s s1 ms ordered e)
