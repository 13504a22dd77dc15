-- ===== src/Server/Attributes.antt =====
-- The variables of the server, with the attributes that `main` gives them.
use factory_thing.Base.{
  ℕ, zero, suc, ◌+◌, ◌*◌, ◌||◌, ◌==◌, Option, none, some, List, [], ◌∷◌, ◌++◌, if◌then◌else◌,
}
use factory_thing.Int.{ℤ, pos, negsuc}
use factory_thing.CString.Defs.{Bytes, lit}
use factory_thing.Lepton.Defs.{boxesid, spotsid}
use factory_thing.Server.Defs.{
  nodeid_null, nodeid_string, variable, read_time_data, read_lepton_data, AddNode, add_node, own,
  objects_folder, scalarid, arrayid, matrixid, leptonid, snapshotsid,
}

pub data Shape : Type 0 where
  scalar : Shape
  array : ℕ → Shape
  matrix : ℕ → ℕ → Shape

-- What a UA_Variant holds: the index of its type in UA_TYPES, and its dimensions.
pub record Held : Type 0 where
  pub type : ℕ
  pub shape : Shape

-- UA_VariableAttributes, less what stays as UA_VariableAttributes_init leaves it. The locales are
-- "en_US"; `data_type` is the index of the type, and `none` stands for the null id, and for a
-- variant that holds nothing.
pub record VariableAttributes : Type 0 where
  pub display_name : Bytes
  pub description : Bytes
  pub write_mask : ℕ
  pub user_write_mask : ℕ
  pub value : Option Held
  pub data_type : Option ℕ
  pub value_rank : ℤ
  pub access_level : ℕ

abbrev pub init : VariableAttributes
init = record {
  display_name = [];
  description = [];
  write_mask = 0;
  user_write_mask = 0;
  value = none;
  data_type = none;
  value_rank = pos 0;
  access_level = 0;
}

-- UA_ACCESSLEVELMASK_READ | UA_ACCESSLEVELMASK_WRITE
abbrev pub read_write : ℕ
read_write = 3

-- UA_WRITEMASK_DISPLAYNAME | UA_WRITEMASK_DESCRIPTION
abbrev pub names_mask : ℕ
names_mask = 96

-- A variable, or a variable with a source, as it is added.
pub record VariableNode : Type 0 where
  pub node : AddNode
  pub attributes : VariableAttributes

abbrev set_value : ℕ → Shape → VariableAttributes → VariableAttributes
set_value type shape attr = record attr { value = some (record { type = type; shape = shape }) }

-- UA_Variant_deleteMembers(&attr.value)
abbrev delete_value : VariableAttributes → VariableAttributes
delete_value attr = record attr { value = none }

abbrev display : Bytes → VariableAttributes → VariableAttributes
display name attr = record attr { display_name = name }

abbrev added_as : AddNode → VariableAttributes → VariableNode
added_as node attr = record { node = node; attributes = attr }

-- Indices of UA_TYPES, which the build of the library generates.
pub record TypeIndices : Type 0 where
  pub boolean_type : ℕ
  pub byte_type : ℕ
  pub int32_type : ℕ
  pub float_type : ℕ
  pub date_time_type : ℕ
  pub variant_type : ℕ
  pub diagnosticinfo_type : ℕ

module _ (ts : TypeIndices) where
  abbrev pub first_variables : List VariableNode
  first_variables =
      added_as
        (add_node variable (nodeid_string 1 (lit "the.answer")) objects_folder (lit "the answer"))
        (set_value ts.int32_type scalar (record init {
          description = lit "the answer";
          display_name = lit "the answer";
          access_level = read_write;
        }))
      ∷ added_as (add_node read_time_data nodeid_null objects_folder (lit "current time"))
          (record init {
            description = lit "current time";
            display_name = lit "current time";
            access_level = read_write;
          })
      ∷ []

  -- The attributes for one type of the library, before there is a value.
  abbrev of_type : ℕ → Bytes → VariableAttributes
  of_type type name = record init {
    value_rank = negsuc 1;
    data_type = some type;
    display_name = name;
    access_level = read_write;
    write_mask = names_mask;
    user_write_mask = names_mask;
  }

  -- The loop over the types from `type` on, with so many rounds left; `id` runs on.
  unfoldable pub type_variables : (ℕ → Bytes) → ℕ → ℕ → ℕ → List VariableNode
  type_variables type_name zero type id = []
  type_variables type_name (suc rounds) type id =
      let skipped = type_variables type_name rounds (type + 1) id in
      let rest = type_variables type_name rounds (type + 1) (id + 3) in
      let name = type_name type in
      let one = set_value type scalar (of_type type name) in
      let many = set_value type (array 10) (delete_value one) in
      let square = set_value type (matrix 3 3) (delete_value many) in
      if type == ts.variant_type || type == ts.diagnosticinfo_type
      then skipped
      else added_as (add_node variable (own (id + 1)) (own scalarid) name) one
        ∷ added_as (add_node variable (own (id + 2)) (own arrayid) name) many
        ∷ added_as (add_node variable (own (id + 3)) (own matrixid) name) square
        ∷ rest

  abbrev pub metric : VariableNode
  metric =
      added_as (add_node variable (own snapshotsid) (own leptonid) (lit "Metric"))
        (set_value ts.byte_type (array 4096) (display (lit "Metric") init))

  -- The four data items of a folder, with the attributes of each.
  abbrev items :
      ℕ
      → VariableAttributes
      → VariableAttributes
      → VariableAttributes
      → VariableAttributes
      → List VariableNode
  items pid min max average valid =
      added_as (add_node read_lepton_data (own (pid + 1)) (own pid) (lit "Min")) min
      ∷ added_as (add_node read_lepton_data (own (pid + 2)) (own pid) (lit "Max")) max
      ∷ added_as (add_node read_lepton_data (own (pid + 3)) (own pid) (lit "Average")) average
      ∷ added_as (add_node read_lepton_data (own (pid + 4)) (own pid) (lit "Valid")) valid
      ∷ []

  -- for(int i = 1; i < 5; i++), from `i` on: one `attr` goes from item to item.
  unfoldable pub lepton_variables : ℕ → ℕ → List VariableNode
  lepton_variables zero i = []
  lepton_variables (suc rounds) i =
      let value = set_value ts.float_type scalar in
      let min = value (display (lit "Min") (record init { value_rank = negsuc 0 })) in
      let max = value (display (lit "Max") (delete_value min)) in
      let average = display (lit "Average") (delete_value max) in
      let valid = set_value ts.boolean_type scalar (display (lit "Valid") init) in
      let spot_min = value (display (lit "Min") (delete_value valid)) in
      let spot_max = value (display (lit "Max") (delete_value spot_min)) in
      let spot_average = display (lit "Average") (delete_value spot_max) in
      let spot_valid =
        set_value ts.boolean_type scalar
          (record (display (lit "Valid") init) { description = lit "Valid" }) in
      items (boxesid + i * 100) min max average valid
      ++ (items (spotsid + i * 100) spot_min spot_max spot_average spot_valid
          ++ lepton_variables rounds (i + 1))

  -- All variables that `main` adds.
  unfoldable pub server_variables : (ℕ → Bytes) → List VariableNode
  server_variables type_name =
      first_variables
      ++ (type_variables type_name ts.diagnosticinfo_type 0 51000
          ++ (metric ∷ lepton_variables 4 1))
