-- ===== src/Json.antt =====
-- json-c, of which the bridge only calls functions: the interface, as the calls are used.
use factory_thing.Base.{ℕ, Bool, Option, none, List, ◌≡◌}
use factory_thing.Int.{ℤ}
use factory_thing.CString.Defs.{Bytes}

-- enum json_type
pub data JsonType : Type 0 where
  null_type boolean_type double_type int_type object_type array_type string_type : JsonType

-- `Ptr` stands for `json_object *`, NULL among its values. A NULL string is `none`.
pub record JsonLib : Type 1 where
  pub Ptr : Type 0
  pub null : Ptr
  -- json_tokener_parse; NULL for a text that is not JSON
  pub parse : Bytes → Ptr
  pub get_type : Ptr → JsonType
  -- the pairs that json_object_object_foreach visits, in order
  pub entries : Ptr → List (Bytes × Ptr)
  pub array_length : Ptr → ℕ
  pub array_get_idx : Ptr → ℕ → Ptr
  pub get_string : Ptr → Option Bytes
  pub get_int : Ptr → ℤ
  pub get_boolean : Ptr → Bool
  -- json_object_object_get_ex; `none` if it returns false
  pub object_get_ex : Ptr → Bytes → Option Ptr

-- What json-c documents of NULL: no member is found in it.
abbrev pub NullHasNoMembers : JsonLib → Type 0
NullHasNoMembers J = (key : Bytes) → J.object_get_ex J.null key ≡ none
