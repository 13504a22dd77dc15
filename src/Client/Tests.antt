-- ===== src/Client/Tests.antt =====
-- A server that refuses its first request, and the theorems at it.
use factory_thing.Base.{
  ◌≡◌, refl, true, [], ◌∷◌, arith, ltb, leb, length, if◌then◌else◌, fault, deleted,
}
use factory_thing.Client.Defs.{new, Server, ClientState, reconnect}
use factory_thing.Client.Start.{SignalBy}
use factory_thing.Client.Reconnect.{reconnect_lem}

abbrev server : Server
server = record {
  status = λ calls. if ltb (length calls) 6 then 1 else 0;
  be_stop = λ calls. leb 40 (length calls);
}

server-SignalBy : SignalBy server 40
server-SignalBy calls h = ground arith

abbrev client : ClientState
client = record { calls = new ∷ []; live = true }

reconnect_lem_example : reconnect server 5 client ≡ fault deleted
reconnect_lem_example = reconnect_lem server 3 client refl
