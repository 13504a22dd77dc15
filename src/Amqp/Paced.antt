-- ===== src/Amqp/Paced.antt =====
-- How `send_batch` ends, and at what rate it sends.
use factory_thing.Base.{
  ℕ, zero, suc, ◌+◌, ◌-◌, ◌*◌, ◌^◌, ◌≤◌, ◌<◌, ◌≡◌, ◌⊎◌, ◌∙◌, inl, inr, refl, ap, sym, subst, true,
  some, List, ◌∷◌, arith, Bool-cases, ok, fault, signed_overflow, Fueled,
}
use factory_thing.CString.Defs.{Bytes}
use factory_thing.Int.{pos, is_negative}
use factory_thing.Amqp.Batch.{
  now_microseconds, publish, BatchCalls, Host, Batch, BatchEnd, finished, died, message, batch_loop,
  declared, send_batch,
}
use factory_thing.Amqp.Waits.{
  sends, copies, copies_add_one, Advances, times_mono, summarise_cases, pace_lem,
}

module _ (host : Host) (advances : Advances host) (queue_name : Bytes) (rate : ℕ) where
  -- What holds before the round `i`: `i` messages are sent, on top of these.
  record Going (start i : ℕ) (before : List (Bytes × Bytes)) (calls : BatchCalls) : Type 0 where
    since : start ≤ host.clock calls
    all_sent : sends calls ≡ copies i (queue_name, message) before
    kept : i * 1_000_000 ≤ suc rate * (host.clock calls - start) + 1_000_000

  -- All messages are sent, none faster than the limit allows; or one is refused; or a rate does not
  -- fit the int that is printed.
  abbrev Ends : ℕ → ℕ → List (Bytes × Bytes) → Fueled (BatchEnd × Batch) → Type 0
  Ends start count before run =
      ((b : Batch) × (run ≡ ok (some (finished, b))) × Going start count before b.calls)
      ⊎ (((b : Batch) × (run ≡ ok (some (died, b))) × (is_negative (host.status b.calls) ≡ true))
          ⊎ (run ≡ fault signed_overflow))

  sent_one :
      (start i : ℕ) (before : List (Bytes × Bytes)) (calls sent : BatchCalls) (now : ℕ)
      → Going start i before calls
      → sends sent ≡ (queue_name, message) ∷ sends calls
      → start ≤ now
      → now ≤ host.clock sent
      → i * 1_000_000 ≤ suc rate * (now - start)
      → Going start (i + 1) before sent
  sent_one start i before calls sent now going same le read slow = record {
    since = omega arith;
    all_sent =
        same
        ∙ (ap (λ xs. (queue_name, message) ∷ xs) going.all_sent
            ∙ sym (copies_add_one i (queue_name, message) before));
    kept =
        let more = times_mono rate (now - start) (host.clock sent - start) (omega arith) in
        omega arith;
  }

  batch_loop_ends :
      (fuel start count rounds i : ℕ) (before : List (Bytes × Bytes)) (b : Batch)
      → i + rounds ≡ count
      → count * 500 ≤ fuel
      → start + count * 1_000_000 + 4000 < 2 ^ 64
      → Going start i before b.calls
      → Ends start count before
          (batch_loop host queue_name (pos (suc rate)) (suc fuel) start rounds i b)
  unfolding batch_loop
  batch_loop_ends fuel start count zero i before b all enough short going =
      inl (b, refl, subst (λ n. Going start n before b.calls) (omega arith) going)
  batch_loop_ends fuel start count (suc rounds) i before b all enough short going =
      let calls1 = now_microseconds ∷ b.calls in
      let now = host.clock calls1 in
      let calls2 = publish queue_name message ∷ calls1 in
      let b1 = record b { calls = calls2; sent = b.sent + 1 } in
      let read = advances.forward now_microseconds b.calls in
      let published = advances.forward (publish queue_name message) calls1 in
      elim (Bool-cases (is_negative (host.status calls2))) [
        | inl refused ↦ inr (inl (record b { calls = calls2 }, rw refused refl, refused))
        | inr accepted ↦ elim (summarise_cases host advances now b1) [
          | inr large ↦ inr (inr (rw (accepted, large) refl))
          | inl (b2, e, same, later) ↦
              let since = going.since in
              let (now1, calls3, e1, sent, le, read1, slow) =
                pace_lem host advances queue_name rate fuel start i now b2.calls (omega arith)
                  (omega arith) (omega arith) (omega arith) in
              rw (accepted, e, e1)
                (batch_loop_ends fuel start count rounds (i + 1) before
                  (record b2 { calls = calls3 }) (omega arith) enough short
                  (sent_one start i before b.calls calls3 now1 going (sent ∙ same) le read1 slow))
        ]
      ]

  -- The same, of the whole function.
  abbrev pub Batched : ℕ → BatchCalls → Fueled (BatchEnd × BatchCalls) → Type 0
  Batched count calls run =
      let start = host.clock (now_microseconds ∷ calls) in
      ((calls1 : BatchCalls) × (run ≡ ok (some (finished, calls1)))
        × (sends calls1 ≡ copies count (queue_name, message) (sends calls))
        × (count * 1_000_000 ≤ suc rate * (host.clock calls1 - start) + 1_000_000))
      ⊎ (((calls1 : BatchCalls) × (run ≡ ok (some (died, calls1)))
            × (is_negative (host.status calls1) ≡ true))
          ⊎ (run ≡ fault signed_overflow))

  -- Where the clock does not go back, a sleep takes its time and the time does not end, AMQP is on and the limit is one
  -- message a second or more, fuel of 500 for each message and 1 is enough for each wait of
  -- send_batch. Either all messages are published, in so much time that those behind the first come
  -- at no more than the limit; or one is refused, and the program exits; or the rate since the line
  -- before, which is printed, does not fit an int.
  pub send_batch_lem :
      (count fuel : ℕ) (calls : BatchCalls)
      → count * 500 < fuel
      → host.clock (now_microseconds ∷ calls) + count * 1_000_000 + 4000 < 2 ^ 64
      → Batched count calls
          (send_batch host queue_name (pos (suc rate)) true fuel (pos count) calls)
  unfolding send_batch
  send_batch_lem count zero calls enough short = absurd (omega arith)
  send_batch_lem count (suc fuel) calls enough short =
      let b = declared host calls in
      let start = host.clock (now_microseconds ∷ calls) in
      let begun : Going start 0 (sends calls) b.calls = record {
        since = omega arith;
        all_sent = refl;
        kept = omega arith;
      } in
      elim (batch_loop_ends fuel start count count 0 (sends calls) b (omega arith) (omega arith)
        short begun) [
          | inl (b1, e, going) ↦
              let since = going.since in
              let later = advances.forward now_microseconds b1.calls in
              let more =
                times_mono rate (host.clock b1.calls - start)
                  (host.clock (now_microseconds ∷ b1.calls) - start) (omega arith) in
              let kept = going.kept in
              inl (now_microseconds ∷ b1.calls, rw e refl, going.all_sent, omega arith)
          | inr (inl (b1, e, refused)) ↦ inr (inl (b1.calls, rw e refl, refused))
          | inr (inr e) ↦ inr (inr (rw e refl))
        ]
