-- ===== src/CString/Prefix.antt =====
-- What the test `!strncmp(key, word, strlen(key))` decides.
use factory_thing.Base.{◌≡◌, refl, ◌↔◌, true, [], ◌∷◌, ◌++◌, arith}
use factory_thing.CString.Defs.{Bytes, matches, strncmp_is_zero, equal}

pub equal_iff : (a b : Bytes) → (equal a b ≡ true) ↔ (a ≡ b)
unfolding equal
equal_iff [] [] = ground arith
equal_iff [] (y ∷ b) = ground arith
equal_iff (x ∷ a) [] = ground arith
equal_iff (x ∷ a) (y ∷ b) = ground (arith, equal_iff a b)

-- `key` is the front of `word`.
abbrev pub IsFront : Bytes → Bytes → Type 0
IsFront key word = (rest : Bytes) × (word ≡ key ++ rest)

pub matches_front : (key rest : Bytes) → matches key (key ++ rest) ≡ true
unfolding strncmp_is_zero
matches_front [] rest = refl
matches_front (x ∷ key) rest = ground (arith, matches_front key rest)

pub matches-IsFront : (key word : Bytes) → matches key word ≡ true → IsFront key word
unfolding strncmp_is_zero
matches-IsFront [] word h = (word, refl)
matches-IsFront (x ∷ key) [] h = cc
matches-IsFront (x ∷ key) (y ∷ word) h =
    let (rest, e) = matches-IsFront key word (ground arith) in (rest, ground arith)

pub matches_iff : (key word : Bytes) → (matches key word ≡ true) ↔ IsFront key word
matches_iff key word = (matches-IsFront key word, λ (rest, e). rw e (matches_front key rest))
