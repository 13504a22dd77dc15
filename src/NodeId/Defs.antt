-- ===== src/NodeId/Defs.antt =====
-- `split` and `getUA_NodeID` of open62541_mqtt/mqtt/client-nodeid.cpp.
use factory_thing.Base.{
  ℕ, zero, suc, ◌+◌, Option, none, some, List, [], ◌∷◌, ◌++◌, ◌==◌, if◌then◌else◌, length,
  get_elem?, Run, ok, fault, out_of_range, ◌>>=◌,
}
use factory_thing.CString.Defs.{Bytes, lit, equal, atoi}

-- The identifier kinds that the bridge sets, of open62541's UA_NodeIdType.
pub data UaNodeIdType : Type 0 where
  numeric_type string_type : UaNodeIdType

-- The union `identifier`, by the member that was written.
pub data Identifier : Type 0 where
  numeric : ℕ → Identifier
  string : Bytes → Identifier

-- UA_NodeId. A field that was never written is `none`.
pub record UaNodeId : Type 0 where
  pub namespace_index : Option ℕ
  pub identifier_type : Option UaNodeIdType
  pub identifier : Option Identifier

abbrev pub unset_id : UaNodeId
unset_id = record { namespace_index = none; identifier_type = none; identifier = none }

-- The item that getline has read so far, at the end of the stream: no item, if it is empty.
abbrev pub last_item : Bytes → List Bytes
last_item [] = []
last_item (c ∷ cur) = (c ∷ cur) ∷ []

-- The calls of getline(ss, item, delim) that succeed; `cur` is what the present one has read.
unfoldable pub split_onto : ℕ → Bytes → Bytes → List Bytes
split_onto delim cur [] = last_item cur
split_onto delim cur (c ∷ s) =
    let next = cur ∷ split_onto delim [] s in
    let more = split_onto delim (cur ++ (c ∷ [])) s in if c == delim then next else more

abbrev pub split : Bytes → ℕ → List Bytes
split s delim = split_onto delim [] s

-- y[j]
abbrev pub at {ℓ} : {A : Type ℓ} → List A → ℕ → Run A
at y j = elim (get_elem? y j) [ none ↦ fault out_of_range | some w ↦ ok w ]

-- UA_UInt16 and UA_UInt32 have so many values.
abbrev pub uint16_values : ℕ
uint16_values = 65536

abbrev pub uint32_values : ℕ
uint32_values = 4294967296

-- `alloc` is UA_STRING_ALLOC, open62541's copy of a C string.
module _ (alloc : Bytes → Bytes) where
  -- The inner loop from `j` on, with `n` rounds left. Its bound is the number of pieces of the
  -- whole text, and not that of `y`.
  unfoldable pub scan : ℕ → ℕ → List Bytes → UaNodeId → Run UaNodeId
  scan zero j y ua = ok ua
  scan (suc n) j y ua = do
    w ← at y j
    let other = scan n (j + 1) y ua
    if equal w (lit "ns")
        then (do
          v ← at y (j + 1)
          scan n (j + 1) y (record ua { namespace_index = some (atoi uint16_values v) }))
        else if equal w (lit "i")
        then (do
          v ← at y (j + 1)
          ok (record ua {
            identifier_type = some numeric_type;
            identifier = some (numeric (atoi uint32_values v));
          }))
        else if equal w (lit "s")
        then (do
          v ← at y (j + 1)
          ok (record ua {
            identifier_type = some string_type;
            identifier = some (string (alloc v));
          }))
        else other

  -- The outer loop over the pieces left; `n` is the number of all pieces.
  unfoldable pub scan_pieces : ℕ → List Bytes → UaNodeId → Run UaNodeId
  scan_pieces n [] ua = ok ua
  scan_pieces n (p ∷ ps) ua = do ua' ← scan n 0 (split p b'=') ua; scan_pieces n ps ua'

  -- getUA_NodeID(id, ua): what `*ua` holds afterwards.
  unfoldable pub get_ua_node_id : Bytes → UaNodeId → Run UaNodeId
  get_ua_node_id id ua = let x = split id b';' in scan_pieces (length x) x ua
