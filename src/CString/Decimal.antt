-- ===== src/CString/Decimal.antt =====
-- Reading back what `%d` prints: atoi after decimal.
use mathlib.Core.List.{append_assoc, append-nil}
use factory_thing.Base.{
  ℕ, zero, suc, ◌+◌, ◌*◌, ◌%◌, ◌/◌, min, ◌<◌, ◌≤◌, ◌≡◌, sym, ◌∙◌, true, [], ◌∷◌, ◌++◌, arith, ap,
  ltb, Bool-cases, inl, inr, All,
}
use factory_thing.CString.Defs.{
  Bytes, digits_onto, decimal_fuel, decimal, atoi, atoi_signed, skip_space, is_digit, long_max,
}

digits_onto-digit :
    (a d : ℕ) (s : Bytes) → d < 10 → digits_onto a ((b'0' + d) ∷ s) ≡ digits_onto (a * 10 + d) s
unfolding digits_onto
digits_onto-digit a d s h = ground arith

digits_onto-decimal_fuel :
    (f n : ℕ) (s : Bytes) → n < f → digits_onto 0 (decimal_fuel f n ++ s) ≡ digits_onto n s
unfolding decimal_fuel
digits_onto-decimal_fuel zero n s h = absurd (omega arith)
digits_onto-decimal_fuel (suc f) n s h = elim (Bool-cases (ltb n 10)) [
  | inl small ↦
      rw small (digits_onto-digit 0 n s (ground arith) ∙ ap (λ k. digits_onto k s) (omega arith))
  | inr large ↦
      rw (large, append_assoc)
        (digits_onto-decimal_fuel f (n / 10) _ (ground arith)
          ∙ digits_onto-digit (n / 10) (n % 10) s (omega arith)
          ∙ ap (λ k. digits_onto k s) (omega arith))
]

-- The digits of a number are read back, and whatever stands behind them is left.
pub digits_onto-decimal : (n : ℕ) (s : Bytes) → digits_onto 0 (decimal n ++ s) ≡ digits_onto n s
unfolding decimal
digits_onto-decimal n s = digits_onto-decimal_fuel (n + 1) n s (omega arith)

-- Every byte is a digit.
abbrev pub AllDigits : Bytes → Type 0
AllDigits s = All (λ c. is_digit c ≡ true) s

All-append {ℓ} : (P : ℕ → Type ℓ) (a b : Bytes) → All P a → All P b → All P (a ++ b)
All-append P [] b h k = k
All-append P (x ∷ a) b h k = (h.0, All-append P a b h.1 k)

decimal_fuel-AllDigits : (f n : ℕ) → AllDigits (decimal_fuel f n)
unfolding decimal_fuel
decimal_fuel-AllDigits zero n = tt
decimal_fuel-AllDigits (suc f) n = elim (Bool-cases (ltb n 10)) [
  | inl small ↦ rw small (ground arith, tt)
  | inr large ↦ rw large (
      All-append (λ c. is_digit c ≡ true) (decimal_fuel f (n / 10)) _
        (decimal_fuel-AllDigits f (n / 10)) (ground arith, tt))
]

pub decimal-AllDigits : (n : ℕ) → AllDigits (decimal n)
unfolding decimal
decimal-AllDigits n = decimal_fuel-AllDigits (n + 1) n

-- On digits atoi reads digits: no sign and no space stand in front.
atoi_of_digits : (m : ℕ) (s : Bytes) → AllDigits s → atoi m s ≡ min (digits_onto 0 s) long_max % m
unfolding atoi skip_space atoi_signed digits_onto
atoi_of_digits m [] h = grind arith
atoi_of_digits m (c ∷ s) (d, h) = ground arith

digits_onto-decimal_alone : (n : ℕ) → digits_onto 0 (decimal n) ≡ n
unfolding digits_onto
digits_onto-decimal_alone n =
    ap (digits_onto 0) (sym (append-nil (decimal n))) ∙ digits_onto-decimal n []

-- atoi reads back a printed number that fits the type.
pub atoi-decimal : (m n : ℕ) → n < m → n ≤ long_max → atoi m (decimal n) ≡ n
atoi-decimal m n h k =
    rw (atoi_of_digits m (decimal n) (decimal-AllDigits n), digits_onto-decimal_alone n)
      (grind arith)
