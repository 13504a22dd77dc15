-- ===== src/Server/Sound.antt =====
-- The attributes of the variables that `main` adds in its loops.
use factory_thing.Base.{
  ℕ, zero, suc, ◌+◌, ◌≤◌, ◌≡◌, ◌⊎◌, inl, inr, refl, Bool, true, false, ◌||◌, ◌==◌, Option, none,
  some, List, [], ◌∷◌, ◌++◌, map, All, Bool-cases, arith, if◌then◌else◌,
}
use factory_thing.Int.{ℤ, pos, negsuc}
use factory_thing.CString.Defs.{Bytes}
use factory_thing.Server.Defs.{
  ServerId, AddNode, variable, read_time_data, read_lepton_data, own, type_nodes,
}
use factory_thing.Server.Orderly.{same_id}
use factory_thing.Server.Collect.{collect}
use factory_thing.Server.Attributes.{
  Shape, scalar, array, matrix, VariableAttributes, VariableNode, TypeIndices, type_variables,
  lepton_variables,
}

abbrev variable_node : AddNode → List AddNode
variable_node n = elim n.class [
  | variable ↦ n ∷ []
  | read_time_data ↦ n ∷ []
  | read_lepton_data ↦ n ∷ []
  | _ ↦ []
]

abbrev pub variables_of : List AddNode → List AddNode
variables_of = collect variable_node

-- The attributes of the first variable of an id.
abbrev pub attributes_at : ServerId → List VariableNode → Option VariableAttributes
attributes_at id [] = none
attributes_at id (v ∷ vs) =
    let below = attributes_at id vs in if same_id id v.node.id then some v.attributes else below

-- A value rank, as OPC UA has it, is that of such a shape: any (-2), a scalar (-1), or an array of
-- one dimension or more (0).
abbrev admits : ℤ → Shape → Bool
admits (negsuc (suc zero)) shape = true
admits (negsuc zero) scalar = true
admits (pos zero) (array n) = true
admits (pos zero) (matrix m n) = true
admits rank shape = false

abbrev Typed : Option ℕ → ℕ → Type 0
Typed data_type type = (data_type ≡ none) ⊎ (data_type ≡ some type)

abbrev Ranked : ℤ → Shape → Type 0
Ranked rank shape = (admits rank shape ≡ true) ⊎ ((shape ≡ scalar) × (rank ≡ pos 0))

-- The value, if there is one, has the type that is declared, if one is, and a shape of the rank; or
-- it is a scalar, and the rank is 0, as nobody has set it.
abbrev pub Sound : VariableAttributes → Type 0
Sound attr = elim attr.value [
  | none ↦ Unit
  | some held ↦ Typed attr.data_type held.type × Ranked attr.value_rank held.shape
]

module _ (ts : TypeIndices) where
  module _ (type_name : ℕ → Bytes) where
    pub types-variables :
        (rounds type id : ℕ) (rest : List AddNode) (tail : List VariableNode)
        → variables_of rest ≡ map (λ v. v.node) tail
        → variables_of
            (type_nodes type_name ts.variant_type ts.diagnosticinfo_type rounds type id ++ rest)
          ≡ map (λ v. v.node) (type_variables ts type_name rounds type id ++ tail)
    unfolding type_nodes type_variables
    types-variables zero type id rest tail h = h
    types-variables (suc rounds) type id rest tail h =
        elim (Bool-cases (type == ts.variant_type || type == ts.diagnosticinfo_type)) [
          | inl e ↦ rw e (types-variables rounds (type + 1) id rest tail h)
          | inr e ↦ rw (e, types-variables rounds (type + 1) (id + 3) rest tail h) refl
        ]

    pub types-Sound :
        (rounds type id : ℕ) (tail : List VariableNode)
        → All (λ v. Sound v.attributes) tail
        → All (λ v. Sound v.attributes) (type_variables ts type_name rounds type id ++ tail)
    unfolding type_variables
    types-Sound zero type id tail h = h
    types-Sound (suc rounds) type id tail h =
        elim (Bool-cases (type == ts.variant_type || type == ts.diagnosticinfo_type)) [
          | inl e ↦ rw e (types-Sound rounds (type + 1) id tail h)
          | inr e ↦ rw e (
            (inr refl, inl refl),
            (
              (inr refl, inl refl),
              ((inr refl, inl refl), types-Sound rounds (type + 1) (id + 3) tail h),
            ),
          )
        ]

    differs : (n id k : ℕ) → n ≤ id → n == id + suc k ≡ false
    differs n id k h = ground arith

    -- The ids of the loop over the types are above any that are not.
    pub types-at :
        (n rounds type id : ℕ) (tail : List VariableNode)
        → n ≤ id
        → attributes_at (own n) (type_variables ts type_name rounds type id ++ tail)
          ≡ attributes_at (own n) tail
    unfolding type_variables
    types-at n zero type id tail h = refl
    types-at n (suc rounds) type id tail h =
        elim (Bool-cases (type == ts.variant_type || type == ts.diagnosticinfo_type)) [
          | inl e ↦ rw e (types-at n rounds (type + 1) id tail h)
          | inr e ↦
              rw (e, differs n id 0 h, differs n id 1 h, differs n id 2 h)
                (types-at n rounds (type + 1) (id + 3) tail (omega arith))
        ]

  pub unranked : {type : ℕ} → Typed none type × Ranked (pos 0) scalar
  unranked = (inl refl, inr (refl, refl))

  pub lepton-Sound : (rounds i : ℕ) → All (λ v. Sound v.attributes) (lepton_variables ts rounds i)
  unfolding lepton_variables
  lepton-Sound zero i = _
  lepton-Sound (suc rounds) i = (
    (inl refl, inl refl),
    (
      (inl refl, inl refl),
      (_, (unranked, (unranked, (unranked, (_, (unranked, lepton-Sound rounds (i + 1))))))),
    ),
  )
