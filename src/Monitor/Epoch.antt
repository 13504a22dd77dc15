-- ===== src/Monitor/Epoch.antt =====
-- `epoch`: the time in microseconds.
use factory_thing.Base.{
  ℕ, ◌+◌, ◌*◌, ◌/◌, ◌%◌, ◌≤◌, ◌<◌, ◌≡◌, refl, Option, none, some, ltb, leb, arith, if◌then◌else◌,
  Bool-cases, inl, inr, Run, ok, fault, signed_overflow, ◌>>=◌,
}
use factory_thing.Int.{ℤ, pos, minus_one}
use factory_thing.Monitor.Value.{half64}

-- A `long` that is not negative.
unfoldable pub long : ℕ → Run ℕ
long n = if ltb n half64 then ok n else fault signed_overflow

-- epoch() for what clock_gettime gives, the seconds and nanoseconds, or `none` if it fails.
unfoldable pub epoch : Option (ℕ × ℕ) → Run ℤ
unfolding long
epoch none = ok minus_one
epoch (some (tv_sec, tv_nsec)) = do
  seconds ← long (tv_sec * 1_000_000)
  micros ← long (seconds + tv_nsec / 1000)
  rounded ← if leb 500 (tv_nsec % 1000) then long (micros + 1) else ok micros
  ok (pos rounded)

long_lem : (n : ℕ) → n < half64 → long n ≡ ok n
unfolding long
long_lem n low = ground arith

-- For fewer than 9 * 10^12 seconds and 10^9 nanoseconds, the result is the number of microseconds nearest to the clock,
-- a half rounded up, and fits 63 bits.
pub epoch_lem :
    (tv_sec tv_nsec : ℕ)
    → tv_sec < 9_000_000_000_000
    → tv_nsec < 1_000_000_000
    → (micros : ℕ) × (epoch (some (tv_sec, tv_nsec)) ≡ ok (pos micros))
      × (micros * 1000 ≤ tv_sec * 1_000_000_000 + tv_nsec + 500)
      × (tv_sec * 1_000_000_000 + tv_nsec < micros * 1000 + 500)
      × (micros < half64)
unfolding epoch
epoch_lem s n few small = elim (Bool-cases (leb 500 (n % 1000))) [
  | inl up ↦ (
    s * 1_000_000 + n / 1000 + 1,
    rw
        (
          up,
          long_lem (s * 1_000_000) (omega arith),
          long_lem (s * 1_000_000 + n / 1000) (omega arith),
          long_lem (s * 1_000_000 + n / 1000 + 1) (omega arith),
        )
        refl,
    ground arith,
    ground arith,
    omega arith,
  )
  | inr down ↦ (
    s * 1_000_000 + n / 1000,
    rw
        (
          down,
          long_lem (s * 1_000_000) (omega arith),
          long_lem (s * 1_000_000 + n / 1000) (omega arith),
        )
        refl,
    ground arith,
    ground arith,
    omega arith,
  )
]
