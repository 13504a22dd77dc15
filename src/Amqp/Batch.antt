-- ===== src/Amqp/Batch.antt =====
-- `send_batch` of client-amqps-producer.c, which is called nowhere: messages at a limited rate.
use factory_thing.Base.{
  ℕ, zero, suc, ◌+◌, ◌-◌, ◌*◌, ◌%◌, ◌^◌, Bool, ◌&&◌, not, ltb, ◌==◌, none, some, List, [], ◌∷◌,
  if◌then◌else◌, Run, ok, fault, signed_overflow, ◌>>=◌, Fueled, and_then,
}
use factory_thing.CString.Defs.{Bytes}
use factory_thing.Int.{ℤ, pos, negsuc, is_negative}

-- The calls that reach outside the program, and the line that is printed each second: how many
-- messages are sent, and how many since the last line.
pub data BatchCall : Type 0 where
  now_microseconds : BatchCall
  publish : Bytes → Bytes → BatchCall
  microsleep : ℕ → BatchCall
  report : ℕ → ℕ → BatchCall

-- The last call first.
abbrev pub BatchCalls : Type 0
BatchCalls = List BatchCall

-- The time in microseconds, and the status that amqp_basic_publish returns, after these calls.
pub record Host : Type 0 where
  pub clock : BatchCalls → ℕ
  pub status : BatchCalls → ℤ

-- The variables of the loop, with the calls. Times are of 64 bits.
pub record Batch : Type 0 where
  pub calls : BatchCalls
  pub sent : ℕ
  pub previous_sent : ℕ
  pub previous_report_time : ℕ
  pub next_summary_time : ℕ

-- `send_batch` returns, or the program exits with the status 1.
pub data BatchEnd : Type 0 where
  finished died : BatchEnd

abbrev pub summary_every_us : ℕ
summary_every_us = 1_000_000

-- From `i` on, so many bytes.
abbrev pub bytes_from : ℕ → ℕ → Bytes
bytes_from zero i = []
bytes_from (suc n) i = i % 256 ∷ bytes_from n (i + 1)

abbrev pub message : Bytes
message = bytes_from 256 0

-- A difference of times.
abbrev pub elapsed : ℕ → ℕ → ℕ
elapsed now before = (now + 2 ^ 64 - before) % 2 ^ 64

-- (i * 1000000.0) / us > rate_limit: the quotient is infinite where `us` alone is 0, and no number
-- where both are. That the quotient is rounded makes no difference, since `i` has 31 bits.
unfoldable pub too_fast : ℕ → ℕ → ℤ → Bool
too_fast i us (pos rate) = if us == 0 then ltb 0 i else ltb (rate * us) (i * 1_000_000)
too_fast i us (negsuc rate) = not (us == 0 && i == 0)

-- The rate since the last line fits an int; it is taken as the exact quotient.
abbrev pub rate_fits : ℕ → ℕ → Bool
rate_fits count us = ltb (count * 1_000_000) (2 ^ 31 * us)

abbrev pub since_report : Batch → ℕ
since_report b = b.sent - b.previous_sent

-- The line is printed.
abbrev pub reported : ℕ → Batch → Batch
reported now b = record b {
  calls = report b.sent (since_report b) ∷ b.calls;
  previous_sent = b.sent;
  previous_report_time = now;
  next_summary_time = (b.next_summary_time + summary_every_us) % 2 ^ 64;
}

-- The line is due once a second.
unfoldable pub summarise : ℕ → Batch → Run Batch
summarise now b =
    if ltb b.next_summary_time now
    then (if rate_fits (since_report b) (elapsed now b.previous_report_time)
        then ok (reported now b)
        else fault signed_overflow)
    else ok b

-- The variables as they are declared, the time being read first.
abbrev pub declared : Host → BatchCalls → Batch
declared host calls =
    let start_time = host.clock (now_microseconds ∷ calls) in
    record {
      calls = now_microseconds ∷ calls;
      sent = 0;
      previous_sent = 0;
      previous_report_time = start_time;
      next_summary_time = (start_time + summary_every_us) % 2 ^ 64;
    }

abbrev pub rounds_of : ℤ → ℕ
rounds_of (pos n) = n
rounds_of (negsuc n) = 0

-- The time is read once more for what is printed at the end.
abbrev pub printed : BatchEnd × Batch → Fueled (BatchEnd × BatchCalls)
printed (finished, b) = ok (some (finished, now_microseconds ∷ b.calls))
printed (died, b) = ok (some (died, b.calls))

module _ (host : Host) (queue_name : Bytes) (rate_limit : ℤ) where
  -- The inner loop, with the time that is read last; `none` if the fuel runs out.
  unfoldable pub pace : ℕ → ℕ → ℕ → ℕ → BatchCalls → Fueled (ℕ × BatchCalls)
  unfolding too_fast
  pace zero start_time i now calls = ok none
  pace (suc fuel) start_time i now calls =
      let calls1 = now_microseconds ∷ microsleep 2000 ∷ calls in
      let rest = pace fuel start_time i (host.clock calls1) calls1 in
      if too_fast i (elapsed now start_time) rate_limit then rest else ok (some (now, calls))

  -- The outer loop from `i` on, with so many rounds left and so much fuel for each inner loop.
  unfoldable pub batch_loop : ℕ → ℕ → ℕ → ℕ → Batch → Fueled (BatchEnd × Batch)
  unfolding summarise pace
  batch_loop fuel start_time zero i b = ok (some (finished, b))
  batch_loop fuel start_time (suc rounds) i b =
      let calls1 = now_microseconds ∷ b.calls in
      let now = host.clock calls1 in
      let calls2 = publish queue_name message ∷ calls1 in
      let b1 = record b { calls = calls2; sent = b.sent + 1 } in
      let rest : Fueled (BatchEnd × Batch) = (do
        b2 ← summarise now b1
        and_then (pace fuel start_time i now b2.calls) (λ (_, calls).
            batch_loop fuel start_time rounds (i + 1) (record b2 { calls = calls }))) in
      if is_negative (host.status calls2)
      then ok (some (died, record b { calls = calls2 }))
      else rest

  -- send_batch(conn, queue_name, rate_limit, message_count)
  unfoldable pub send_batch : Bool → ℕ → ℤ → BatchCalls → Fueled (BatchEnd × BatchCalls)
  unfolding batch_loop
  send_batch amqp_enable fuel message_count calls =
      if not amqp_enable
      then ok (some (finished, calls))
      else (let b = declared host calls in
          and_then (batch_loop fuel b.previous_report_time (rounds_of message_count) 0 b) printed)
