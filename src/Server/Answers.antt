-- ===== src/Server/Answers.antt =====
-- What the methods answer, by the arguments that `main` declares for them.
use factory_thing.Base.{
  ℕ, ◌+◌, ◌<◌, ◌^◌, ◌≡◌, ◌⊎◌, inl, inr, refl, Option, none, some, List, [], ◌∷◌, ◌++◌, map, length,
  All, Run, ok, ap, fault, bad_pointer,
}
use factory_thing.Int.{pos}
use factory_thing.CString.Defs.{Bytes}
use factory_thing.Server.Defs.{
  NodeClass, hello_world_method, noarg_method, outarg_method, AddNode, lepton_nodes, depth_nodes,
  server_nodes,
}
use factory_thing.Server.Greeting.{hello, hello_world_lem}
use factory_thing.Server.Collect.{collect, collect-type_nodes}
use factory_thing.Server.Methods.{
  Argument, int32_type, string_type, Variant, int32, string, MethodNode, hello_world_node,
  server_methods, Output, set_scalar_copy, as_string, noarg, outarg, greeted, callback_of,
}

abbrev pub IsOf : Argument → Variant → Type 0
IsOf a (int32 z) = a.data_type ≡ int32_type
IsOf a (string s) = a.data_type ≡ string_type

-- The variants are as many as the arguments, and each has the type of its own.
abbrev pub Match : List Argument → List Variant → Type 0
Match [] [] = Unit
Match [] (v ∷ vs) = ⊥
Match (a ∷ rest) [] = ⊥
Match (a ∷ rest) (v ∷ vs) = IsOf a v × Match rest vs

abbrev pub Short : Variant → Type 0
Short (int32 z) = Unit
Short (string s) = length s + 6 < 2 ^ 64

-- What a method is for.
abbrev pub reply : NodeClass → List Variant → List Variant
reply hello_world_method (string name ∷ inputs) = string (hello ++ name) ∷ []
reply outarg_method inputs = int32 (pos 42) ∷ []
reply class inputs = []

-- As many empty variants as there are arguments.
abbrev pub fresh : List Argument → Output
fresh [] = []
fresh (a ∷ rest) = none ∷ fresh rest

abbrev method_node : AddNode → List AddNode
method_node n = elim n.class [
  | hello_world_method ↦ n ∷ []
  | noarg_method ↦ n ∷ []
  | outarg_method ↦ n ∷ []
  | _ ↦ []
]

abbrev pub methods_of : List AddNode → List AddNode
methods_of = collect method_node

module _ (type_name : ℕ → Bytes) (variant diagnosticinfo : ℕ) where
  server-methods :
      methods_of (server_nodes type_name variant diagnosticinfo) ≡ map (λ m. m.node) server_methods
  unfolding server_nodes depth_nodes lepton_nodes
  server-methods =
      ap (λ ns. hello_world_node.node ∷ ns)
        (collect-type_nodes method_node (λ id parent name. refl) type_name variant diagnosticinfo
          diagnosticinfo 0 51000 _)

module _ (malloc : ℕ → Option Bytes)
    (gives : (n : ℕ)
      → (malloc n ≡ none) ⊎ ((mem : Bytes) × (malloc n ≡ some mem) × (length mem ≡ n))) where
  -- The callback replies, with what is declared; or there is no memory for the reply.
  abbrev pub Answers : MethodNode → List Variant → Type 0
  Answers m inputs =
      let outs = reply m.node.class inputs in
      (callback : List Variant → Output → Run Output) × (callback_of malloc m.node.class
        ≡ some callback)
      × (((callback inputs (fresh m.output_arguments) ≡ ok (map some outs))
            × Match m.output_arguments outs)
          ⊎ ((n : ℕ) × (malloc n ≡ none)
              × (callback inputs (fresh m.output_arguments) ≡ fault bad_pointer)))

  greeted-Answers :
      (inputs : List Variant)
      → Match hello_world_node.input_arguments inputs
      → All Short inputs
      → Answers hello_world_node inputs
  unfolding greeted set_scalar_copy as_string
  greeted-Answers [] h short = absurd h
  greeted-Answers (int32 z ∷ []) (h, _) short = cc
  greeted-Answers (string s ∷ []) h (short, _) = (
    greeted malloc,
    refl,
    elim (hello_world_lem malloc s gives short) [
      | inl e ↦ inl (rw e refl, (refl, _))
      | inr (null, e) ↦ inr (length s + 6, null, rw e refl)
    ],
  )
  greeted-Answers (v ∷ w ∷ vs) h short = absurd (h.1)

  -- The methods that `main` adds, whatever the types of the library, are those of `server_methods`.
  -- Where malloc gives as many bytes as it is asked for, or NULL, and the library checks the inputs
  -- against the arguments that are declared, each callback gives what is declared too, in number and
  -- type: "Hello " and the name, nothing, or 42; or there is no memory for the greeting. No name has
  -- more than 2 ^ 64 - 7 bytes.
  pub methods_lem :
      (type_name : ℕ → Bytes) (variant diagnosticinfo : ℕ)
      → (methods_of (server_nodes type_name variant diagnosticinfo)
          ≡ map (λ m. m.node) server_methods)
        × All
            (λ m.
              (inputs : List Variant)
              → Match m.input_arguments inputs
              → All Short inputs
              → Answers m inputs)
            server_methods
  unfolding noarg outarg set_scalar_copy
  methods_lem type_name variant diagnosticinfo = (
    server-methods type_name variant diagnosticinfo,
    (
      greeted-Answers,
      (
        λ inputs h short. (noarg, refl, inl (refl, _)),
        (
          λ inputs h short. (noarg, refl, inl (refl, _)),
          (
            λ inputs h short. (outarg, refl, inl (refl, (refl, _))),
            (λ inputs h short. (outarg, refl, inl (refl, (refl, _))), _),
          ),
        ),
      ),
    ),
  )
