-- ===== src/CString/Digits.antt =====
-- How many bytes a printed number takes.
use factory_thing.Base.{
  ℕ, zero, suc, ◌+◌, ◌*◌, ◌/◌, ◌%◌, ◌<◌, ◌≤◌, ◌≡◌, refl, ap, true, [], ◌∷◌, ◌++◌, arith, ltb,
  Bool-cases, inl, inr,
}
use factory_thing.CString.Defs.{Bytes, strlen, decimal_fuel, decimal}

pub strlen_snoc : (s : Bytes) (c : ℕ) → strlen (s ++ (c ∷ [])) ≡ suc (strlen s)
strlen_snoc [] c = refl
strlen_snoc (x ∷ s) c = ap suc (strlen_snoc s c)

pub strlen_append : (s t : Bytes) → strlen (s ++ t) ≡ strlen s + strlen t
strlen_append [] t = ground arith
strlen_append (x ∷ s) t = grind (arith, strlen_append s t)

-- 10 ^ (k + 1)
abbrev pub ten_to : ℕ → ℕ
ten_to zero = 10
ten_to (suc k) = 10 * ten_to k

ltb_lem : (n : ℕ) → n < 10 → ltb n 10 ≡ true
ltb_lem n small = ground arith

digits-le : (f n k : ℕ) → n < ten_to k → strlen (decimal_fuel f n) ≤ suc k
unfolding decimal_fuel
digits-le zero n k small = ground arith
digits-le (suc f) n zero small = rw (ltb_lem n small) (ground arith)
digits-le (suc f) n (suc k) small = elim (Bool-cases (ltb n 10)) [
  | inl e ↦ rw e (ground arith)
  | inr e ↦
      rw (e, strlen_snoc (decimal_fuel f (n / 10)) (b'0' + n % 10))
        (grind (arith, digits-le f (n / 10) k (omega arith)))
]

pub decimal-le : (n k : ℕ) → n < ten_to k → strlen (decimal n) ≤ suc k
unfolding decimal
decimal-le n k small = digits-le (n + 1) n k small
