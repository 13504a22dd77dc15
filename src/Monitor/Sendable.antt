-- ===== src/Monitor/Sendable.antt =====
-- The values that a server may send, whose texts fit the array `value`.
use factory_thing.Base.{
  ℕ, suc, ◌+◌, ◌<◌, ◌≤◌, true, false, [], ◌∷◌, arith, ◌==◌, Bool-cases, inl, inr,
}
use factory_thing.CString.Defs.{Bytes, decimal, strlen}
use factory_thing.CString.Digits.{strlen_append, decimal-le}
use factory_thing.Int.{ℤ, pos, negsuc}
use factory_thing.Monitor.Value.{
  Value, boolean, sbyte, byte, int16, uint16, int32, uint32, int64, uint64, float, double, string,
  unsupported, untyped, UaString, half32, half64, to_signed, print_int, callback_switch,
}
use factory_thing.Monitor.Contents.{FitsIn}

-- A signed 64-bit number.
abbrev pub InRange : ℤ → Type 0
InRange (pos n) = n < half64
InRange (negsuc n) = n < half64

pub print_int-le : (z : ℤ) → InRange z → strlen (print_int z) ≤ 20
unfolding print_int
print_int-le (pos n) low = grind (arith, decimal-le n 18 (omega arith))
print_int-le (negsuc n) low = grind (arith, decimal-le (suc n) 18 (omega arith))

pub to_signed-InRange : (n : ℕ) → n < half64 + half64 → InRange (to_signed half64 n)
to_signed-InRange n small = ground arith

-- What a server may send: integers within their types, a float that "%f" prints in 31 bytes, a
-- string of 29 bytes at most.
abbrev pub Sendable : {F : Type 0} → (F → Bytes) → Value F → Type 0
Sendable print_f (boolean b) = Unit
Sendable print_f (sbyte z) = InRange z
Sendable print_f (byte n) = n < half64
Sendable print_f (int16 z) = InRange z
Sendable print_f (uint16 n) = n < half64
Sendable print_f (int32 z) = InRange z
Sendable print_f (uint32 n) = n < half32 + half32
Sendable print_f (int64 z) = InRange z
Sendable print_f (uint64 n) = n < half64 + half64
Sendable print_f (float x) = strlen (print_f x) < 32
Sendable print_f (double x) = strlen (print_f x) < 32
Sendable print_f (string s) = strlen s.printed < 30
Sendable print_f unsupported = Unit
Sendable print_f untyped = ⊥

module _ {F : Type 0} (print_f : F → Bytes) where
  natural-lt : (n : ℕ) → n < half64 + half64 → strlen (decimal n) < 32
  natural-lt n low = grind (arith, decimal-le n 19 (omega arith))

  int-lt : (z : ℤ) → InRange z → strlen (print_int z) < 32
  int-lt z low = grind (arith, print_int-le z low)

  string-FitsIn : (s : UaString) → strlen s.printed < 30 → FitsIn print_f callback_switch (string s)
  string-FitsIn s low = elim (Bool-cases (s.length == 0)) [
    | inl e ↦ rw e (ground arith)
    | inr e ↦ rw e (grind (arith, strlen_append s.printed (b'"' ∷ [])))
  ]

  pub Sendable-FitsIn : (v : Value F) → Sendable print_f v → FitsIn print_f callback_switch v
  Sendable-FitsIn (boolean true) low = ground arith
  Sendable-FitsIn (boolean false) low = ground arith
  Sendable-FitsIn (sbyte z) low = int-lt z low
  Sendable-FitsIn (byte n) low = natural-lt n (omega arith)
  Sendable-FitsIn (int16 z) low = int-lt z low
  Sendable-FitsIn (uint16 n) low = natural-lt n (omega arith)
  Sendable-FitsIn (int32 z) low = int-lt z low
  Sendable-FitsIn (uint32 n) low = int-lt (to_signed half32 n) (ground arith)
  Sendable-FitsIn (int64 z) low = int-lt z low
  Sendable-FitsIn (uint64 n) low = natural-lt n low
  Sendable-FitsIn (float x) low = low
  Sendable-FitsIn (double x) low = low
  Sendable-FitsIn (string s) low = string-FitsIn s low
  Sendable-FitsIn unsupported low = _
  Sendable-FitsIn untyped never = absurd never
