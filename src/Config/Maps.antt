-- ===== src/Config/Maps.antt =====
-- std::map by its two laws: `insert` keeps the order of the keys, and reads as a change at one key.
use factory_thing.Base.{
  ℕ, ◌<◌, ◌≤◌, ◌≡◌, refl, Option, none, some, [], ◌∷◌, arith, ◌==◌, if◌then◌else◌,
}
use factory_thing.Config.Defs.{Map, insert}

module _ {V : Type 0} where
  -- Every key is greater than `k`.
  abbrev pub Above : ℕ → Map V → Type 0
  Above k [] = Unit
  Above k ((j, w) ∷ m) = (k < j) × Above k m

  -- The keys grow strictly.
  abbrev pub IsOrdered : Map V → Type 0
  IsOrdered [] = Unit
  IsOrdered ((k, v) ∷ m) = Above k m × IsOrdered m

  abbrev pub lookup : Map V → ℕ → Option V
  lookup [] q = none
  lookup ((k, v) ∷ m) q = if k == q then some v else lookup m q

  insert-Above : (j k : ℕ) (v : V) (m : Map V) → j < k → Above j m → Above j (insert k v m)
  unfolding insert
  insert-Above j k v [] lt h = (lt, _)
  insert-Above j k v ((i, w) ∷ m) lt (h, hs) = ground (arith, insert-Above j k v m lt hs)

  Above-trans : (j k : ℕ) (m : Map V) → j < k → Above k m → Above j m
  Above-trans j k [] lt h = _
  Above-trans j k ((i, w) ∷ m) lt (h, hs) = (omega arith, Above-trans j k m lt hs)

  pub insert-IsOrdered : (k : ℕ) (v : V) (m : Map V) → IsOrdered m → IsOrdered (insert k v m)
  unfolding insert
  insert-IsOrdered k v [] h = _
  insert-IsOrdered k v ((j, w) ∷ m) (above, h) =
      ground (arith, insert-IsOrdered k v m h, insert-Above j k v m, Above-trans k j m)

  lookup-Above : (k q : ℕ) (m : Map V) → q ≤ k → Above k m → lookup m q ≡ none
  lookup-Above k q [] le h = refl
  lookup-Above k q ((j, w) ∷ m) le (h, hs) = ground (arith, lookup-Above k q m le hs)

  -- What a key holds, or else `v`.
  abbrev pub held : Option V → V → V
  held none v = v
  held (some w) v = w

  -- A key that is there keeps its value.
  pub lookup-insert :
      (k : ℕ) (v : V) (m : Map V) (q : ℕ)
      → IsOrdered m
      → lookup (insert k v m) q ≡ (if k == q then some (held (lookup m k) v) else lookup m q)
  unfolding insert
  lookup-insert k v [] q h = refl
  lookup-insert k v ((j, w) ∷ m) q (above, h) =
      ground (arith, lookup-insert k v m q h, lookup-Above j k m, lookup-Above j q m)
