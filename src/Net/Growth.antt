-- ===== src/Net/Growth.antt =====
-- Openings only add calls.
use factory_thing.Base.{ℕ, ◌≤◌, ◌<◌, ◌≡◌, true, List, [], ◌∷◌, ◌++◌, arith, length}
use factory_thing.CString.Defs.{Bytes}
use factory_thing.Int.{ℤ}
use factory_thing.Net.Defs.{SockOpt, History, Env, open_socket, transport_open, tcp_open}
use factory_thing.Net.Added.{Adds, open_socket-Adds}

pub length_append {ℓ} : {A : Type ℓ} (xs ys : List A) → length ys ≤ length (xs ++ ys)
length_append [] ys = omega arith
length_append (x ∷ xs) ys = omega (arith, length_append xs ys)

Adds-le : (h h1 : History) → Adds h h1 → length h ≤ length h1
Adds-le h h1 (calls, e, all) = rw e (length_append calls h)

-- An opening makes one call at least.
open_socket-lt :
    (env : Env) (options : List SockOpt) (addr : Bytes) (port : ℤ) (h : History)
    → length h < length (open_socket env options addr port h).history
open_socket-lt env options addr port h = Adds-le _ _ (open_socket-Adds env options addr port h)

pub tcp_open-lt :
    (env : Env) (addr : Bytes) (port : ℤ) (h : History)
    → length h < length (tcp_open env addr port h).history
unfolding tcp_open
tcp_open-lt env addr port h = open_socket-lt env _ addr port h

pub transport_open-lt :
    (env : Env) (addr : Bytes) (port : ℤ) (h : History)
    → length h < length (transport_open env addr port h).history
unfolding transport_open
transport_open-lt env addr port h = open_socket-lt env _ addr port h

-- `beStop` is set, for good, once so many calls are made.
abbrev pub StopsBy : Env → ℕ → Type 0
StopsBy env n = (h : History) → n ≤ length h → env.be_stop h ≡ true
