-- ===== src/Monitor/Pairs.antt =====
-- When a round of polling gets through its nodes: the arrays `value` and `skv`.
use factory_thing.Base.{
  ℕ, suc, ◌+◌, ◌<◌, ◌≡◌, ◌↔◌, refl, subst, Option, none, some, [], ◌∷◌, ◌++◌, arith, All, ◌==◌,
  if◌then◌else◌, Bool-cases, inl, inr, Run, ok, ◌>>=◌, need, bind-inv,
}
use factory_thing.CString.Defs.{Bytes, lit, decimal, strlen}
use factory_thing.CString.Digits.{strlen_snoc}
use factory_thing.Config.Defs.{Node, Map}
use factory_thing.Monitor.Value.{
  Value, boolean, sbyte, byte, int16, uint16, int32, uint32, int64, uint64, float, double, string,
  unsupported, untyped, UaString, JsonValue, Converted, half32, half64, to_signed, print_int,
  sprintf, poll_switch, add, convert_string, convert,
}
use factory_thing.Monitor.Round.{Gathered, pair, poll_node, poll_nodes}

-- What is printed of a value, if it is supported.
abbrev pub value_text : {F : Type 0} → (F → Bytes) → Value F → Option Bytes
value_text print_f (boolean b) = some (if b then lit "true" else lit "false")
value_text print_f (sbyte z) = some (print_int z)
value_text print_f (byte n) = some (decimal n)
value_text print_f (int16 z) = some (print_int z)
value_text print_f (uint16 n) = some (decimal n)
value_text print_f (int32 z) = some (print_int z)
value_text print_f (uint32 n) = some (print_int (to_signed half32 n))
value_text print_f (int64 z) = some (print_int z)
value_text print_f (uint64 n) = some (print_int (to_signed half64 n))
value_text print_f (float x) = some (print_f x)
value_text print_f (double x) = some (print_f x)
value_text print_f (string s) =
    some (if s.length == 0 then [] else b'"' ∷ (s.printed ++ (b'"' ∷ [])))
value_text print_f unsupported = none
value_text print_f untyped = none

abbrev pub Returns {ℓ} : {A : Type ℓ} → Run A → Type ℓ
Returns {A = A} m = (a : A) × (m ≡ ok a)

-- The alias is set, and "alias=text" and its NUL take 32 bytes at most.
abbrev pub FitsPair : Option Bytes → Bytes → Type 0
FitsPair none text = ⊥
FitsPair (some a) text = strlen (pair a text) < 32

-- The same of a value; a type that is not supported is passed over.
abbrev pub FitsValue : {F : Type 0} → (F → Bytes) → Option Bytes → Value F → Type 0
FitsValue print_f alias untyped = ⊥
FitsValue print_f alias v = elim (value_text print_f v) [
  | none ↦ Unit
  | some text ↦ FitsPair alias text
]

-- The same of what is read of a node.
abbrev pub FitsRead : {F : Type 0} → (F → Bytes) → Option Bytes → Option (Value F) → Type 0
FitsRead print_f alias none = Unit
FitsRead print_f alias (some v) = FitsValue print_f alias v

strlen-pair : (a s : Bytes) → strlen (pair a s) ≡ strlen a + suc (strlen s)
strlen-pair [] s = ground arith
strlen-pair (x ∷ a) s = grind (arith, strlen-pair a s)

sprintf-fits : (n : ℕ) (s : Bytes) {t : Bytes} → sprintf n s ≡ ok t → strlen s < n
unfolding sprintf
sprintf-fits n s h = ground arith

pub sprintf_lem : (n : ℕ) (s : Bytes) → strlen s < n → sprintf n s ≡ ok s
unfolding sprintf
sprintf_lem n s h = ground arith

module _ {F : Type 0} (print_f : F → Bytes) where
  -- What follows the switch.
  abbrev pub rest : Option Bytes → Gathered F → Converted F → Run (Gathered F)
  rest alias got x = do
    a ← need alias
    skv ← sprintf 32 (pair a x.text)
    ok (record { members = got.members ++ x.members; kvs = got.kvs ++ (skv ∷ []) })

  rest-fits :
      (alias : Option Bytes) (got : Gathered F) (x : Converted F)
      → Returns (rest alias got x) ↔ FitsPair alias x.text
  rest-fits none got x = (λ (r, h). cc, λ never. absurd never)
  rest-fits (some a) got x = (
    λ (r, h). sprintf-fits 32 (pair a x.text) (bind-inv (sprintf 32 (pair a x.text)) _ h).1,
    λ f. rw (sprintf_lem 32 (pair a x.text) f) (_, refl),
  )

  pub add-text :
      (alias : Option Bytes) (j : JsonValue F) (s : Bytes) {x : Converted F}
      → add print_f poll_switch alias j s ≡ ok x
      → x.text ≡ s
  unfolding add sprintf
  add-text alias j s h = ground arith

  add-Returns :
      (a : Bytes) (j : JsonValue F) (s : Bytes)
      → strlen s < 512
      → Returns (add print_f poll_switch (some a) j s)
  unfolding add
  add-Returns a j s f = rw (sprintf_lem 512 s f) (_, refl)

  -- What the string case prints.
  abbrev pub shown : UaString → Bytes
  shown s = if s.length == 0 then [] else b'"' ∷ (s.printed ++ (b'"' ∷ []))

  pub string-text :
      (alias : Option Bytes) (s : UaString) {x : Converted F}
      → convert_string print_f poll_switch alias s ≡ ok x
      → x.text ≡ shown s
  unfolding convert_string sprintf
  string-text alias s h = ground arith

  string-Returns :
      (a : Bytes) (s : UaString)
      → strlen (shown s) < 512
      → Returns (convert_string print_f poll_switch (some a) s)
  unfolding convert_string
  string-Returns a s f = elim (Bool-cases (s.length == 0)) [
    | inl e ↦ rw e (_, refl)
    | inr e ↦
        let long : suc (strlen (s.printed ++ (b'"' ∷ []))) < 512 = rw e at f in
        rw
          (
            e,
            sprintf_lem 512 s.printed (grind (arith, strlen_snoc s.printed b'"')),
            sprintf_lem 512 (b'"' ∷ (s.printed ++ (b'"' ∷ []))) long,
          )
          (_, refl)
  ]

  -- A step that prints `text`, and what follows it.
  then-fits :
      (step : Option Bytes → Run (Converted F)) (text : Bytes)
      → ((alias : Option Bytes) (x : Converted F) → step alias ≡ ok x → x.text ≡ text)
      → ((a : Bytes) → strlen text < 512 → Returns (step (some a)))
      → (alias : Option Bytes) (got : Gathered F)
      → Returns (step alias >>= rest alias got) ↔ FitsPair alias text
  then-fits step text says returns alias got = (
    λ (r, h).
        let (x, e, k) = bind-inv (step alias) _ h in
        subst (FitsPair alias) (says alias x e) ((rest-fits alias got x).0 (r, k)),
    λ f. step_rest alias f,
  )
    where
      step_rest :
          (alias : Option Bytes) → FitsPair alias text → Returns (step alias >>= rest alias got)
      step_rest none never = absurd never
      step_rest (some a) f =
          let (x, e) = returns a (grind (arith, strlen-pair a text)) in
          rw e ((rest-fits (some a) got x).1 (rw (says (some a) x e) f))

  add-fits :
      (j : JsonValue F) (s : Bytes) (alias : Option Bytes) (got : Gathered F)
      → Returns (add print_f poll_switch alias j s >>= rest alias got) ↔ FitsPair alias s
  add-fits j s =
      then-fits (λ alias. add print_f poll_switch alias j s) s (λ alias x h. add-text alias j s h)
        (λ a f. add-Returns a j s f)

  string-fits :
      (s : UaString) (alias : Option Bytes) (got : Gathered F)
      → Returns (convert_string print_f poll_switch alias s >>= rest alias got)
        ↔ FitsPair alias (shown s)
  string-fits s =
      then-fits (λ alias. convert_string print_f poll_switch alias s) (shown s)
        (λ alias x h. string-text alias s h) (λ a f. string-Returns a s f)

  pub poll_node-fits :
      (d : Node) (v : Option (Value F)) (got : Gathered F)
      → Returns (poll_node print_f d v got) ↔ FitsRead print_f d.alias v
  unfolding poll_node convert
  poll_node-fits d none got = (λ _. _, λ _. (got, refl))
  poll_node-fits d (some (boolean b)) got = add-fits _ _ d.alias got
  poll_node-fits d (some (sbyte z)) got = add-fits _ _ d.alias got
  poll_node-fits d (some (byte n)) got = add-fits _ _ d.alias got
  poll_node-fits d (some (int16 z)) got = add-fits _ _ d.alias got
  poll_node-fits d (some (uint16 n)) got = add-fits _ _ d.alias got
  poll_node-fits d (some (int32 z)) got = add-fits _ _ d.alias got
  poll_node-fits d (some (uint32 n)) got = add-fits _ _ d.alias got
  poll_node-fits d (some (int64 z)) got = add-fits _ _ d.alias got
  poll_node-fits d (some (uint64 n)) got = add-fits _ _ d.alias got
  poll_node-fits d (some (float y)) got = add-fits _ _ d.alias got
  poll_node-fits d (some (double y)) got = add-fits _ _ d.alias got
  poll_node-fits d (some (string s)) got = string-fits s d.alias got
  poll_node-fits d (some unsupported) got = (λ _. _, λ _. (got, refl))
  poll_node-fits d (some untyped) got = (λ (r, h). cc, λ never. absurd never)

  pub poll_nodes_iff :
      (read : ℕ → Option (Value F)) (nodes : Map Node) (got : Gathered F)
      → Returns (poll_nodes print_f read nodes got)
        ↔ All (λ (k, d). FitsRead print_f d.alias (read k)) nodes
  unfolding poll_nodes
  poll_nodes_iff read [] got = (λ _. _, λ _. (got, refl))
  poll_nodes_iff read ((k, d) ∷ nodes) got = (
    λ (r, h).
        let (next, e, rest_ok) = bind-inv (poll_node print_f d (read k) got) _ h in
        (
          (poll_node-fits d (read k) got).0 (next, e),
          (poll_nodes_iff read nodes next).0 (r, rest_ok),
        ),
    λ (f, fs).
        let (next, e) = (poll_node-fits d (read k) got).1 f in
        rw e ((poll_nodes_iff read nodes next).1 fs),
  )
