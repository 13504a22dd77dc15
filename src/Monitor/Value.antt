-- ===== src/Monitor/Value.antt =====
-- The switch over the type of a value, of `callback` and `opcua_poll_group`: what is added to the
-- JSON object and what is printed into `value`.
use factory_thing.Base.{
  ℕ, suc, ◌+◌, ◌-◌, Bool, true, false, Option, none, some, List, [], ◌∷◌, ◌++◌, ltb, ◌==◌,
  if◌then◌else◌, Run, ok, fault, overflow, bad_pointer, ◌>>=◌, need,
}
use factory_thing.CString.Defs.{Bytes, lit, decimal, strlen}
use factory_thing.Int.{ℤ, pos, negsuc}

-- A UA_String: its length, and what `%s` prints of its data, which are the bytes up to a NUL.
pub record UaString : Type 0 where
  pub length : ℕ
  pub printed : Bytes

-- A variant by its typeIndex. `F` stands for the floating-point numbers.
pub data Value (F : Type 0) : Type 0 where
  boolean : Bool → Value F
  sbyte int16 int32 int64 : ℤ → Value F
  byte uint16 uint32 uint64 : ℕ → Value F
  float double : F → Value F
  string : UaString → Value F
  unsupported : Value F
  -- a variant with no type, so that `type` is NULL
  untyped : Value F

-- What json_object_new_… is given.
pub data JsonValue (F : Type 0) : Type 0 where
  new_boolean : Bool → JsonValue F
  new_int new_int64 : ℤ → JsonValue F
  new_double : F → JsonValue F
  new_string : Bytes → JsonValue F

-- The conversion of an unsigned number of `half + half` values to the signed type of that width.
abbrev pub to_signed : ℕ → ℕ → ℤ
to_signed half n = if ltb n half then pos n else negsuc (half + half - n - 1)

abbrev pub half32 : ℕ
half32 = 0x8000_0000

abbrev pub half64 : ℕ
half64 = 0x8000_0000_0000_0000

-- %d and %ld
unfoldable pub print_int : ℤ → Bytes
print_int (pos n) = decimal n
print_int (negsuc n) = b'-' ∷ decimal (suc n)

-- sprintf into an array of `size` bytes.
unfoldable pub sprintf : ℕ → Bytes → Run Bytes
sprintf size s = if ltb (strlen s) size then ok s else fault overflow

-- Which of the two switches runs: they differ in the array and in one conversion.
pub record Switch : Type 0 where
  pub size : ℕ
  -- how a UInt64 is printed
  pub print_uint64 : ℕ → Bytes

-- `value[32]` and "%lu".
abbrev pub callback_switch : Switch
callback_switch = record { size = 32; print_uint64 = decimal }

-- `value[512]` and "%ld".
abbrev pub poll_switch : Switch
poll_switch = record { size = 512; print_uint64 = λ n. print_int (to_signed half64 n) }

-- The members added to a JSON object, in order: json_object_object_add(jobj, key, value).
abbrev pub Members : Type 0 → Type 0
Members F = List (Bytes × JsonValue F)

-- The loop that sets bEmpty.
abbrev pub is_empty : {F : Type 0} → Members F → Bool
is_empty [] = true
is_empty (_ ∷ _) = false

-- What the switch leaves: what it adds to the object, and the text of `value`.
pub record Converted (F : Type 0) : Type 0 where
  pub members : Members F
  pub text : Bytes

module _ {F : Type 0} (print_f : F → Bytes) (sw : Switch) (alias : Option Bytes) where
  -- json_object_object_add(jobj, d->alias, …); sprintf(&value[0], …);
  unfoldable pub add : JsonValue F → Bytes → Run (Converted F)
  add j s = do
    key ← need alias
    t ← sprintf sw.size s
    ok (record { members = (key, j) ∷ []; text = t })

  abbrev pub quote : Bytes → Bytes
  quote s = b'"' ∷ (s ++ (b'"' ∷ []))

  -- The string case. Only a string of length 0 is passed over.
  unfoldable pub convert_string : UaString → Run (Converted F)
  convert_string s = if s.length == 0 then ok (record { members = []; text = [] }) else (do
    plain ← sprintf sw.size s.printed
    key ← need alias
    quoted ← sprintf sw.size (quote s.printed)
    ok (record { members = (key, new_string plain) ∷ []; text = quoted }))

  -- `none` for a type that is not supported.
  unfoldable pub convert : Value F → Option (Run (Converted F))
  convert (boolean b) = some (add (new_boolean b) (if b then lit "true" else lit "false"))
  convert (sbyte z) = some (add (new_int z) (print_int z))
  convert (byte n) = some (add (new_int (pos n)) (decimal n))
  convert (int16 z) = some (add (new_int z) (print_int z))
  convert (uint16 n) = some (add (new_int (pos n)) (decimal n))
  convert (int32 z) = some (add (new_int z) (print_int z))
  convert (uint32 n) = some (add (new_int (to_signed half32 n)) (print_int (to_signed half32 n)))
  convert (int64 z) = some (add (new_int64 z) (print_int z))
  convert (uint64 n) = some (add (new_int64 (to_signed half64 n)) (sw.print_uint64 n))
  convert (float x) = some (add (new_double x) (print_f x))
  convert (double x) = some (add (new_double x) (print_f x))
  convert (string s) = some (convert_string s)
  convert unsupported = none
  convert untyped = some (fault bad_pointer)
