-- ===== src/Amqp/Waits.antt =====
-- The inner loop of `send_batch`, which waits until the rate is kept.
use factory_thing.Base.{
  ℕ, zero, suc, ◌+◌, ◌-◌, ◌*◌, ◌^◌, ◌≤◌, ◌<◌, ◌≡◌, ◌⊎◌, inl, inr, refl, ap, true, false, ltb, some,
  List, [], ◌∷◌, arith, Bool-cases, ok, fault, signed_overflow,
}
use factory_thing.CString.Defs.{Bytes}
use factory_thing.Int.{ℤ, pos}
use factory_thing.Amqp.Batch.{
  BatchCall, now_microseconds, publish, microsleep, report, BatchCalls, Host, Batch, elapsed,
  too_fast, since_report, rate_fits, reported, summarise, pace,
}

-- What is published, the last first.
abbrev pub sends : BatchCalls → List (Bytes × Bytes)
sends [] = []
sends (now_microseconds ∷ calls) = sends calls
sends (publish queue m ∷ calls) = (queue, m) ∷ sends calls
sends (microsleep us ∷ calls) = sends calls
sends (report n count ∷ calls) = sends calls

-- So many times the same, on a list.
abbrev pub copies {ℓ} : {A : Type ℓ} → ℕ → A → List A → List A
copies zero x rest = rest
copies (suc n) x rest = x ∷ copies n x rest

pub copies_add_one :
    {A : Type 0} (n : ℕ) (x : A) (rest : List A) → copies (n + 1) x rest ≡ x ∷ copies n x rest
copies_add_one n x rest = let e : n + 1 ≡ suc n = omega arith in ap (λ m. copies m x rest) e

-- The clock does not go back, a sleep takes its time, unless the time ends before, and the time has
-- 64 bits.
pub record Advances (host : Host) : Type 0 where
  pub forward :
      (call : BatchCall) (calls : BatchCalls) → host.clock calls ≤ host.clock (call ∷ calls)
  pub sleeps :
      (us : ℕ) (calls : BatchCalls)
      → host.clock calls + us < 2 ^ 64
      → host.clock calls + us ≤ host.clock (microsleep us ∷ calls)
  pub bounded : (calls : BatchCalls) → host.clock calls < 2 ^ 64

times_le : (rate d : ℕ) → d ≤ suc rate * d
times_le rate d = grind arith

pub times_mono : (rate a b : ℕ) → a ≤ b → suc rate * a ≤ suc rate * b
times_mono rate a b le = grind arith

elapsed_lem : (now start : ℕ) → start ≤ now → now < 2 ^ 64 → elapsed now start ≡ now - start
elapsed_lem now start le lt = omega arith

-- The rate is kept where the inner loop ends.
too_fast_slow :
    (rate i us : ℕ) → too_fast i us (pos (suc rate)) ≡ false → i * 1_000_000 ≤ suc rate * us
unfolding too_fast
too_fast_slow rate i us h = ground arith

-- And where it goes on, the time is short.
too_fast_short : (rate i us : ℕ) → too_fast i us (pos (suc rate)) ≡ true → us < i * 1_000_000
unfolding too_fast
too_fast_short rate i us h = let le = times_le rate us in ground arith

module _ (host : Host) (advances : Advances host) where
  pub summarise_cases :
      (now : ℕ) (b : Batch)
      → ((b1 : Batch) × (summarise now b ≡ ok b1)
          × (sends b1.calls ≡ sends b.calls)
          × (host.clock b.calls ≤ host.clock b1.calls))
        ⊎ (summarise now b ≡ fault signed_overflow)
  unfolding summarise
  summarise_cases now b = elim (Bool-cases (ltb b.next_summary_time now)) [
    | inr early ↦ inl (b, rw early refl, refl, omega arith)
    | inl due ↦
        elim (Bool-cases (rate_fits (since_report b) (elapsed now b.previous_report_time))) [
          | inl fits ↦ inl (reported now b, rw (due, fits) refl, refl, advances.forward _ _)
          | inr large ↦ inr (rw (due, large) refl)
        ]
  ]

  module _ (queue_name : Bytes) (rate : ℕ) where
    abbrev pub limit : ℤ
    limit = pos (suc rate)

    -- The inner loop ends when the rate is kept, and nothing is sent in it.
    abbrev pub Slowed : ℕ → ℕ → ℕ → ℕ → BatchCalls → Type 0
    Slowed fuel start i now calls =
        (now1 : ℕ) × (calls1 : BatchCalls) × (pace host queue_name limit fuel start i now calls
          ≡ ok (some (now1, calls1)))
        × (sends calls1 ≡ sends calls)
        × (start ≤ now1)
        × (now1 ≤ host.clock calls1)
        × (i * 1_000_000 ≤ suc rate * (now1 - start))

    at_once :
        (fuel start i now : ℕ) (calls : BatchCalls)
        → start ≤ now
        → now ≤ host.clock calls
        → too_fast i (elapsed now start) limit ≡ false
        → Slowed (suc fuel) start i now calls
    unfolding pace
    at_once fuel start i now calls le read slow =
        let time = elapsed_lem now start le (let low = advances.bounded calls in omega arith) in
        (
          now,
          calls,
          rw slow refl,
          refl,
          le,
          read,
          rw time at (too_fast_slow rate i (elapsed now start) slow),
        )

    -- What a sleep and the reading of the clock behind it give, while the time does not end.
    slept_lem :
        (now : ℕ) (calls : BatchCalls)
        → now ≤ host.clock calls
        → now + 4000 < 2 ^ 64
        → now + 2000 ≤ host.clock (now_microseconds ∷ microsleep 2000 ∷ calls)
    slept_lem now calls read short =
        let slept = advances.sleeps 2000 calls in
        let woken = advances.forward (microsleep 2000) calls in
        let later = advances.forward now_microseconds (microsleep 2000 ∷ calls) in
        elim (Bool-cases (ltb (host.clock calls + 2000) (2 ^ 64))) [
          | inl early ↦ let slept1 = slept (ground arith) in omega arith
          | inr late ↦ ground arith
        ]

    pub pace_lem :
        (fuel start i now : ℕ) (calls : BatchCalls)
        → start ≤ now
        → now ≤ host.clock calls
        → start + i * 1_000_000 + 4000 < 2 ^ 64
        → i * 1_000_000 ≤ fuel * 2000 + (now - start)
        → Slowed (suc fuel) start i now calls
    unfolding pace
    pace_lem zero start i now calls le read short enough =
        let time = elapsed_lem now start le (let low = advances.bounded calls in omega arith) in
        elim (Bool-cases (too_fast i (elapsed now start) limit)) [
          | inr slow ↦ at_once 0 start i now calls le read slow
          | inl fast ↦
              let short = rw time at (too_fast_short rate i (elapsed now start) fast) in
              absurd (omega arith)
        ]
    pace_lem (suc fuel) start i now calls le read short enough =
        let time = elapsed_lem now start le (let low = advances.bounded calls in omega arith) in
        elim (Bool-cases (too_fast i (elapsed now start) limit)) [
          | inr slow ↦ at_once (suc fuel) start i now calls le read slow
          | inl fast ↦
              let low = rw time at (too_fast_short rate i (elapsed now start) fast) in
              let calls1 = now_microseconds ∷ microsleep 2000 ∷ calls in
              let later = slept_lem now calls read (omega arith) in
              let (now1, calls2, e, sent, le1, read1, kept) =
                pace_lem fuel start i (host.clock calls1) calls1 (omega arith) (omega arith) short
                  (omega arith) in
              (now1, calls2, rw fast e, sent, le1, read1, kept)
        ]
