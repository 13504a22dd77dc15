-- ===== src/Server/Greeting.antt =====
-- `helloWorld` of open62541_mqtt/mqtt/server.c.
use factory_thing.Base.{
  ℕ, zero, suc, ◌+◌, ◌%◌, ◌^◌, ◌<◌, ◌≡◌, ◌⊎◌, inl, inr, refl, Option, none, some, [], ◌∷◌, ◌++◌,
  length, Run, ok, fault, overflow, bad_pointer, ◌>>=◌, need, arith,
}
use factory_thing.CString.Defs.{Bytes, lit}

-- memcpy to the front of memory.
unfoldable pub memcpy : Bytes → Bytes → Run Bytes
memcpy mem [] = ok mem
memcpy [] (y ∷ src) = fault overflow
memcpy (x ∷ mem) (y ∷ src) = do rest ← memcpy mem src; ok (y ∷ rest)

-- memcpy to memory from an offset on.
unfoldable pub memcpy_from : ℕ → Bytes → Bytes → Run Bytes
unfolding memcpy
memcpy_from zero mem src = memcpy mem src
memcpy_from (suc n) [] src = fault overflow
memcpy_from (suc n) (x ∷ mem) src = do rest ← memcpy_from n mem src; ok (x ∷ rest)

abbrev pub hello : Bytes
hello = lit "Hello "

-- greet.length, of 64 bits
abbrev pub greet_length : Bytes → ℕ
greet_length name = (length hello + length name) % 2 ^ 64

-- The greeting that the output is set to; `malloc` gives memory with any bytes in it, or NULL, and
-- `name` is the string that the server hands over.
unfoldable pub hello_world : (ℕ → Option Bytes) → Bytes → Run Bytes
unfolding memcpy memcpy_from
hello_world malloc name = do
  memory ← need (malloc (greet_length name))
  front ← memcpy memory hello
  memcpy_from (length hello) front name

memcpy-front :
    (src mem : Bytes) (k : ℕ)
    → length mem ≡ length src + k
    → (rest : Bytes) × (memcpy mem src ≡ ok (src ++ rest)) × (length rest ≡ k)
unfolding memcpy
memcpy-front [] mem k h = (mem, refl, omega arith)
memcpy-front (y ∷ src) [] k h = absurd (omega arith)
memcpy-front (y ∷ src) (x ∷ mem) k h =
    let (rest, e, l) = memcpy-front src mem k (omega arith) in (rest, rw e refl, l)

memcpy-all : (mem src : Bytes) → length mem ≡ length src → memcpy mem src ≡ ok src
unfolding memcpy
memcpy-all [] [] h = refl
memcpy-all [] (y ∷ src) h = absurd (omega arith)
memcpy-all (x ∷ mem) [] h = absurd (omega arith)
memcpy-all (x ∷ mem) (y ∷ src) h = rw (memcpy-all mem src (omega arith)) refl

memcpy_from-behind :
    (front mem src : Bytes)
    → length mem ≡ length src
    → memcpy_from (length front) (front ++ mem) src ≡ ok (front ++ src)
unfolding memcpy_from
memcpy_from-behind [] mem src h = memcpy-all mem src h
memcpy_from-behind (x ∷ front) mem src h = rw (memcpy_from-behind front mem src h) refl

-- Where malloc gives as many bytes as it is asked for, or NULL, a name of fewer than 2 ^ 64 - 6 bytes
-- is greeted by "Hello " and the whole name; or malloc gives NULL, and the greeting is written there.
pub hello_world_lem :
    (malloc : ℕ → Option Bytes) (name : Bytes)
    → ((n : ℕ) → (malloc n ≡ none) ⊎ ((mem : Bytes) × (malloc n ≡ some mem) × (length mem ≡ n)))
    → length name + 6 < 2 ^ 64
    → (hello_world malloc name ≡ ok (hello ++ name))
      ⊎ ((malloc (length name + 6) ≡ none) × (hello_world malloc name ≡ fault bad_pointer))
unfolding hello_world
hello_world_lem malloc name gives short =
    let fits : greet_length name ≡ length name + 6 = omega arith in
    elim (gives (length name + 6)) [
      | inl null ↦ inr (null, rw (fits, null) refl)
      | inr (mem, e, l) ↦
          let (rest, e1, l1) = memcpy-front hello mem (length name) (omega arith) in
          inl (rw (fits, e, e1) (memcpy_from-behind hello rest name l1))
    ]
