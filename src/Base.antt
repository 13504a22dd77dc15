-- ===== src/Base.antt =====
-- The names that the modules share: the libraries', passed on, Boolean tests on numbers, lists
-- measured by native numbers, and the outcome of code that can fault.
use Prim.Native.Nat.{compare, Ordering}
pub use Prim.Native.Nat.{ℕ, zero, suc, ◌+◌, ◌-◌, ◌*◌, ◌/◌, ◌%◌, ◌^◌, ◌≤◌, ◌<◌, min}
pub use mathlib.Core.Path.{◌≡◌, refl, sym, ap, ◌∙◌, subst}
pub use mathlib.Core.Logic.{◌≢◌, ◌↔◌, ◌⊎◌, inl, inr}
pub use mathlib.Core.Bool.{Bool, true, false, ◌&&◌, ◌||◌, not}
pub use mathlib.Core.Option.{Option, none, some}
pub use mathlib.Core.List.{List, [], ◌∷◌, ◌++◌, map, append-nil, append_assoc}
pub use native.Mathlib.Omega.{arith}

abbrev pub ltb : ℕ → ℕ → Bool
ltb a b = elim (compare a b) [ Ordering.lt ↦ true | _ ↦ false ]

abbrev pub leb : ℕ → ℕ → Bool
leb a b = elim (compare a b) [ Ordering.gt ↦ false | _ ↦ true ]

infix 50 ◌==◌
abbrev pub ◌==◌ : ℕ → ℕ → Bool
a == b = elim (compare a b) [ Ordering.eq ↦ true | _ ↦ false ]

pub ==_iff : (a b : ℕ) → ((a == b) ≡ true) ↔ (a ≡ b)
==_iff a b = ground arith

infix 1 if◌then◌else◌
abbrev pub if◌then◌else◌ {ℓ} : {A : Type ℓ} → Bool → A → A → A
if true then x else y = x
if false then x else y = y

pub Bool-cases : (b : Bool) → (b ≡ true) ⊎ (b ≡ false)
Bool-cases true = inl refl
Bool-cases false = inr refl

pub Option-cases {ℓ} : {A : Type ℓ} (o : Option A) → (o ≡ none) ⊎ ((a : A) × (o ≡ some a))
Option-cases none = inl refl
Option-cases (some a) = inr (a, refl)

pub some-injective {ℓ} : {A : Type ℓ} {a b : A} → some a ≡ some b → a ≡ b
some-injective h = cc

module _ {ℓ} {A : Type ℓ} where
  abbrev pub length : List A → ℕ
  length [] = 0
  length (x ∷ xs) = suc (length xs)

  abbrev pub get_elem? : List A → ℕ → Option A
  get_elem? [] i = none
  get_elem? (x ∷ xs) zero = some x
  get_elem? (x ∷ xs) (suc i) = get_elem? xs i

-- Every element satisfies `P`.
abbrev pub All {ℓ κ} : {A : Type ℓ} → (A → Type κ) → List A → Type κ
All P [] = Unit
All P (x ∷ xs) = P x × All P xs

-- What code does that may step outside the language: it returns, or it faults.
pub data Fault : Type 0 where
  -- a pointer that was never set, or NULL, is read
  bad_pointer : Fault
  -- an index lies outside a vector
  out_of_range : Fault
  -- a string is copied into an array that is too small
  overflow : Fault
  -- a sum or product of signed numbers has no value of their type
  signed_overflow : Fault
  -- an object is used after it was deleted
  deleted : Fault

pub data Run {ℓ} (A : Type ℓ) : Type ℓ where
  ok : A → Run A
  fault : Fault → Run A

pub Run-cases {ℓ} :
    {A : Type ℓ} (m : Run A) → ((a : A) × (m ≡ ok a)) ⊎ ((why : Fault) × (m ≡ fault why))
Run-cases (ok a) = inl (a, refl)
Run-cases (fault why) = inr (why, refl)

-- The value of a variable that may be unset.
abbrev pub need {ℓ} : {A : Type ℓ} → Option A → Run A
need none = fault bad_pointer
need (some value) = ok value

-- The next statement runs unless the one before it has faulted.
infixl 5 ◌>>=◌
abbrev pub ◌>>=◌ {ℓ κ} : {V : Type ℓ} {W : Type κ} → Run V → (V → Run W) → Run W
ok v >>= next = next v
fault why >>= next = fault why

pub bind-inv {ℓ κ} :
    {V : Type ℓ} {W : Type κ} (first : Run V) (next : V → Run W) {w : W}
    → (first >>= next) ≡ ok w
    → (v : V) × (first ≡ ok v) × (next v ≡ ok w)
bind-inv (ok v) next returned = (v, refl, returned)
bind-inv (fault why) next returned = cc

infixl 5 ◌>>◌
abbrev pub ◌>>◌ {ℓ} : {W : Type ℓ} → Run (Unit {0}) → Run W → Run W
first >> second = first >>= λ _. second

pub ok-injective {ℓ} : {A : Type ℓ} {a b : A} → ok a ≡ ok b → a ≡ b
ok-injective h = cc

-- A part that can fault and runs on fuel: it gives `none` if the fuel runs out.
abbrev pub Fueled {ℓ} : Type ℓ → Type ℓ
Fueled A = Run (Option A)

-- The next part, unless the one before it has faulted or run out of fuel.
abbrev pub and_then {ℓ κ} : {V : Type ℓ} {W : Type κ} → Fueled V → (V → Fueled W) → Fueled W
and_then (ok (some v)) next = next v
and_then (ok none) next = ok none
and_then (fault why) next = fault why

pub and_then-inv {ℓ κ} :
    {V : Type ℓ} {W : Type κ} (first : Fueled V) (next : V → Fueled W) {w : W}
    → and_then first next ≡ ok (some w)
    → (v : V) × (first ≡ ok (some v)) × (next v ≡ ok (some w))
and_then-inv (ok (some v)) next returned = (v, refl, returned)
and_then-inv (ok none) next returned = cc
and_then-inv (fault why) next returned = cc
