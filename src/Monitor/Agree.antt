-- ===== src/Monitor/Agree.antt =====
-- The two switches, that of `callback` and that of `opcua_poll_group`, side by side.
use factory_thing.Base.{◌<◌}
use factory_thing.Monitor.Value.{Value, uint64, half64}

-- No UInt64 of 2^63 or more.
abbrev pub Signed : {F : Type 0} → Value F → Type 0
Signed (uint64 n) = n < half64
Signed _ = Unit
