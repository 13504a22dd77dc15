-- ===== src/Net/Counts.antt =====
-- How many sockets are closed.
use factory_thing.Base.{ℕ, ◌+◌, ◌≡◌, [], ◌∷◌, arith}
use factory_thing.CString.Defs.{Bytes}
use factory_thing.Int.{ℤ}
use factory_thing.Net.Defs.{Call, close, History, Env, transport_open}
use factory_thing.Net.Added.{IsOpening, Adds-keeps, transport_open-Adds}

abbrev pub closing : Call → ℕ
closing (close fd) = 1
closing _ = 0

-- The calls of close().
abbrev pub closes : History → ℕ
closes [] = 0
closes (call ∷ h) = closing call + closes h

closes_opening : (call : Call) (h : History) → IsOpening call → closes (call ∷ h) ≡ closes h
closes_opening call h is = ground arith

-- An opening closes nothing.
pub transport_open-closes :
    (env : Env) (addr : Bytes) (port : ℤ) (h : History)
    → closes (transport_open env addr port h).history ≡ closes h
transport_open-closes env addr port h =
    Adds-keeps closes closes_opening _ _ (transport_open-Adds env addr port h)
