-- ===== src/Amqp/Tests.antt =====
-- A broker that accepts everything, and the theorems at it.
use factory_thing.Base.{
  ℕ, ltb, ◌+◌, ◌^◌, if◌then◌else◌, ◌≡◌, refl, true, false, [], ◌∷◌, arith, leb, length, ok,
}
use factory_thing.CString.Defs.{lit}
use factory_thing.Int.{pos}
use factory_thing.Config.Defs.{Configuration, zero_configuration}
use factory_thing.Amqp.Defs.{
  basic_publish, Broker, unset, usable, AmqpState, calling, bytes_at, amqp_publish,
}
use factory_thing.Amqp.Batch.{BatchCall, microsleep, BatchCalls, Host, send_batch}
use factory_thing.Amqp.Waits.{Advances}
use factory_thing.Amqp.Paced.{Batched, send_batch_lem}
use factory_thing.Amqp.Total.{AmqpStopsBy, Outcome, amqp_main_total}

abbrev broker : Broker
broker = record {
  has_socket = λ calls. true;
  status = λ calls. pos 0;
  is_normal = λ calls. true;
  be_stop = λ calls. leb 12 (length calls);
}

broker-AmqpStopsBy : AmqpStopsBy broker 12
broker-AmqpStopsBy calls h = ground arith

abbrev c : Configuration
c = record zero_configuration { amqp_enable = true }

abbrev loaded : AmqpState
loaded = record { calls = []; conn = unset; connected = false }

abbrev open_state : AmqpState
open_state = record { calls = []; conn = usable; connected = true }

-- A text of 9 bytes is cut.
cut_test :
    amqp_publish (lit "temp=21.5") open_state
    ≡ ok (pos 0, calling (basic_publish (lit "temp=21.")) open_state)
unfolding amqp_publish bytes_at
cut_test = refl

amqp_main_total_example : Outcome broker c 13 loaded
amqp_main_total_example = amqp_main_total broker c 12 13 loaded broker-AmqpStopsBy (omega arith)

-- A millisecond for each call, and for a sleep what it asks for.
abbrev cost : BatchCall → ℕ
cost (microsleep us) = us
cost call = 1000

abbrev time : BatchCalls → ℕ
time [] = 0
time (call ∷ calls) = time calls + cost call

-- The clock stops at its last value.
abbrev stopped : ℕ → ℕ
stopped t = if ltb t (2 ^ 64) then t else 0xffff_ffff_ffff_ffff

abbrev host : Host
host = record { clock = λ calls. stopped (time calls); status = λ calls. pos 0 }

host-Advances : Advances host
host-Advances = record {
  forward = λ call calls. ground arith;
  sleeps = λ us calls h. ground arith;
  bounded = λ calls. ground arith;
}

send_batch_lem_example :
    Batched host host-Advances
      (lit "q")
      9
      3
      []
      (send_batch host (lit "q") (pos 10) true 1501 (pos 3) [])
send_batch_lem_example =
    send_batch_lem host host-Advances (lit "q") 9 3 1501 [] (ground arith) (ground arith)
