-- ===== src/CString/Defs.antt =====
-- The functions of <string.h> and <stdlib.h> that the bridge uses.
use Prim.Native.Char.{code}
use Prim.Native.String.{String}
use factory_thing.Base.{
  ℕ, zero, suc, ◌+◌, ◌-◌, ◌*◌, ◌/◌, ◌%◌, min, Bool, true, false, ◌&&◌, ◌||◌, List, [], ◌∷◌, ◌++◌,
  ltb, leb, ◌==◌, if◌then◌else◌, length,
}

abbrev pub Bytes : Type 0
Bytes = List ℕ

-- A literal of the source.
abbrev pub lit : String → Bytes
lit String.[] = []
lit (String.◌∷◌ c s) = code c ∷ lit s

abbrev pub strlen : Bytes → ℕ
strlen = length

-- strncmp(a, b, n) == 0: the strings agree on their first n bytes, the NUL included.
unfoldable pub strncmp_is_zero : Bytes → Bytes → ℕ → Bool
strncmp_is_zero a b zero = true
strncmp_is_zero [] [] (suc n) = true
strncmp_is_zero [] (y ∷ b) (suc n) = false
strncmp_is_zero (x ∷ a) [] (suc n) = false
strncmp_is_zero (x ∷ a) (y ∷ b) (suc n) = x == y && strncmp_is_zero a b n

-- !strncmp(key, word, strlen(key)), the test by which the bridge compares names.
abbrev pub matches : Bytes → Bytes → Bool
matches key word = strncmp_is_zero key word (strlen key)

-- std::string::compare(b) == 0
unfoldable pub equal : Bytes → Bytes → Bool
equal [] [] = true
equal [] (y ∷ b) = false
equal (x ∷ a) [] = false
equal (x ∷ a) (y ∷ b) = x == y && equal a b

abbrev pub is_digit : ℕ → Bool
is_digit c = leb b'0' c && leb c b'9'

-- The digits at the front of a string, read onto `n`.
unfoldable pub digits_onto : ℕ → Bytes → ℕ
digits_onto n [] = n
digits_onto n (c ∷ s) =
    let rest = digits_onto (n * 10 + (c - b'0')) s in if is_digit c then rest else n

abbrev pub is_space : ℕ → Bool
is_space c = c == b' ' || (leb 9 c && leb c 13)

-- isspace bytes at the front are passed over.
unfoldable pub skip_space : Bytes → Bytes
skip_space [] = []
skip_space (c ∷ s) = let rest = skip_space s in if is_space c then rest else c ∷ s

-- The largest `long`; strtol stops there, and one further on the negative side.
abbrev pub long_max : ℕ
long_max = 0x7fff_ffff_ffff_ffff

-- (int)strtol(s, NULL, 10), which is atoi(s), converted to an unsigned type of `m` values, `m` at
-- most 2 ^ 32.
unfoldable pub atoi_signed : ℕ → Bytes → ℕ
unfolding digits_onto
atoi_signed m [] = 0
atoi_signed m (c ∷ s) =
    if c == b'-'
    then (m - min (digits_onto 0 s) (long_max + 1) % m) % m
    else if c == b'+'
    then min (digits_onto 0 s) long_max % m
    else min (digits_onto 0 (c ∷ s)) long_max % m

unfoldable pub atoi : ℕ → Bytes → ℕ
unfolding atoi_signed skip_space
atoi m s = atoi_signed m (skip_space s)

-- What `%d` and `%u` print of a number that is not negative, the last digit last. The fuel bounds
-- the digits: `decimal` gives one more than the number, which is enough.
unfoldable pub decimal_fuel : ℕ → ℕ → Bytes
decimal_fuel zero n = []
decimal_fuel (suc f) n =
    let front = decimal_fuel f (n / 10) in
    if ltb n 10 then (b'0' + n) ∷ [] else front ++ ((b'0' + n % 10) ∷ [])

unfoldable pub decimal : ℕ → Bytes
unfolding decimal_fuel
decimal n = decimal_fuel (n + 1) n
