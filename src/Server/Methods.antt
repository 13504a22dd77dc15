-- ===== src/Server/Methods.antt =====
-- The methods of the server, with the arguments that `main` declares for them.
use factory_thing.Base.{ℕ, Option, none, some, List, [], ◌∷◌, Run, ok, fault, bad_pointer, ◌>>=◌}
use factory_thing.Int.{ℤ, pos, negsuc}
use factory_thing.CString.Defs.{Bytes, lit}
use factory_thing.Server.Defs.{
  NodeClass, object, variable, read_time_data, read_lepton_data, hello_world_method, noarg_method,
  outarg_method, AddNode, add_node, own, demoid, objects_folder,
}
use factory_thing.Server.Greeting.{hello_world}

-- The types that arguments have, and a variant that holds a scalar.
pub data ArgumentType : Type 0 where
  int32_type string_type : ArgumentType

pub data Variant : Type 0 where
  int32 : ℤ → Variant
  string : Bytes → Variant

-- UA_Argument; there are no array dimensions.
pub record Argument : Type 0 where
  pub data_type : ArgumentType
  pub description : Bytes
  pub name : Bytes
  pub value_rank : ℤ

-- The callbacks are named by the class of their node.
pub record MethodNode : Type 0 where
  pub node : AddNode
  pub input_arguments : List Argument
  pub output_arguments : List Argument

abbrev argument : ArgumentType → Bytes → Bytes → Argument
argument data_type description name = record {
  data_type = data_type;
  description = description;
  name = name;
  value_rank = negsuc 0;
}

abbrev pub hello_world_node : MethodNode
hello_world_node = record {
  node = add_node hello_world_method (own 62541) objects_folder (lit "hello_world");
  input_arguments = argument string_type (lit "Say your name") (lit "Name") ∷ [];
  output_arguments = argument string_type (lit "Receive a greeting") (lit "greeting") ∷ [];
}

abbrev pub input : Argument
input = argument int32_type (lit "Input") (lit "Input")

abbrev pub output : Argument
output = argument int32_type (lit "Output") (lit "Output")

abbrev pub last_methods : List MethodNode
last_methods =
    record {
      node = add_node noarg_method (own 60000) (own demoid) (lit "noarg");
      input_arguments = [];
      output_arguments = [];
    }
    ∷ record {
      node = add_node noarg_method (own 60001) (own demoid) (lit "noarg");
      input_arguments = input ∷ [];
      output_arguments = [];
    }
    ∷ record {
      node = add_node outarg_method (own 60002) (own demoid) (lit "outarg");
      input_arguments = [];
      output_arguments = output ∷ [];
    }
    ∷ record {
      node = add_node outarg_method (own 60003) (own demoid) (lit "inoutarg");
      input_arguments = input ∷ [];
      output_arguments = output ∷ [];
    }
    ∷ []

-- All methods that `main` adds.
abbrev pub server_methods : List MethodNode
server_methods = hello_world_node ∷ last_methods

-- The variants that the output points to, which start empty.
abbrev pub Output : Type 0
Output = List (Option Variant)

-- The first element of an array.
abbrev first {ℓ} : {A : Type ℓ} → List A → Run A
first [] = fault bad_pointer
first (x ∷ xs) = ok x

-- UA_Variant_setScalarCopy(output, …), which is taken to succeed.
unfoldable pub set_scalar_copy : Output → Variant → Run Output
set_scalar_copy [] v = fault bad_pointer
set_scalar_copy (o ∷ outs) v = ok (some v ∷ outs)

-- (UA_String*)input[0].data
unfoldable pub as_string : Variant → Run Bytes
as_string (int32 z) = fault bad_pointer
as_string (string s) = ok s

-- The status that each of them returns is UA_STATUSCODE_GOOD.
unfoldable pub noarg : List Variant → Output → Run Output
noarg inputs outs = ok outs

unfoldable pub outarg : List Variant → Output → Run Output
unfolding set_scalar_copy
outarg inputs outs = set_scalar_copy outs (int32 (pos 42))

module _ (malloc : ℕ → Option Bytes) where
  unfoldable pub greeted : List Variant → Output → Run Output
  unfolding set_scalar_copy as_string
  greeted inputs outs = do
    v ← first inputs
    name ← as_string v
    greet ← hello_world malloc name
    set_scalar_copy outs (string greet)

  -- The callback of a node; only a method has one.
  abbrev pub callback_of : NodeClass → Option (List Variant → Output → Run Output)
  callback_of hello_world_method = some greeted
  callback_of noarg_method = some noarg
  callback_of outarg_method = some outarg
  callback_of object = none
  callback_of variable = none
  callback_of read_time_data = none
  callback_of read_lepton_data = none
