-- ===== src/Server/Declared.antt =====
-- What the attributes of the variables declare, beside what their sources give.
use factory_thing.Base.{
  ℕ, ◌≤◌, ◌≡◌, inl, refl, ap, sym, ◌∙◌, Bool, false, Option, none, some, ◌∷◌, ◌++◌, map, All, arith,
}
use factory_thing.Int.{ℤ, pos, negsuc}
use factory_thing.CString.Defs.{Bytes}
use factory_thing.Lepton.Defs.{Lepton, Scalar, float, boolean, date_time, DataValue, read_lepton}
use factory_thing.Lepton.Read.{
  Kind, box, spot, Place, first, second, third, fourth, Field, min, max, avg, val, address,
  read_lepton_lem, field_of, item_of,
}
use factory_thing.Server.Defs.{own, depth_nodes, lepton_nodes, server_nodes}
use factory_thing.Server.Attributes.{
  scalar, Held, VariableAttributes, TypeIndices, first_variables, lepton_variables, metric,
  server_variables,
}
use factory_thing.Server.Sound.{
  variables_of, attributes_at, Sound, types-variables, types-Sound, types-at, unranked,
  lepton-Sound,
}

module _ (ts : TypeIndices) where
  abbrev pub held_of : {F : Type 0} → Scalar F → Held
  held_of (float x) = record { type = ts.float_type; shape = scalar }
  held_of (boolean b) = record { type = ts.boolean_type; shape = scalar }
  held_of (date_time t) = record { type = ts.date_time_type; shape = scalar }

  -- Only the averages declare nothing.
  abbrev pub declared_for : {F : Type 0} → Field → Option (Scalar F) → Option Held
  declared_for avg served = none
  declared_for f none = none
  declared_for f (some x) = some (held_of x)

  -- The rank is set for the three numbers of a box, and for nothing else.
  abbrev pub rank_for : Kind → Field → ℤ
  rank_for box min = negsuc 0
  rank_for box max = negsuc 0
  rank_for box avg = negsuc 0
  rank_for k f = pos 0

  -- The attributes of a data item.
  abbrev Item : {F : Type 0} → Lepton F → Kind → Place → Field → Type 0
  Item l k p f =
      (a : VariableAttributes) × (attributes_at (own (address k p f))
          (metric ts ∷ lepton_variables ts 4 1)
        ≡ some a)
      × (a.value ≡ declared_for f (some (field_of (item_of l k p) f)))
      × (a.value_rank ≡ rank_for k f)
      × (a.access_level ≡ 0)

  module _ {F : Type 0} (l : Lepton F) where
    item : (k : Kind) (p : Place) (f : Field) → Item l k p f
    unfolding lepton_variables
    item box first min = (_, refl, refl, refl, refl)
    item box first max = (_, refl, refl, refl, refl)
    item box first avg = (_, refl, refl, refl, refl)
    item box first val = (_, refl, refl, refl, refl)
    item box second min = (_, refl, refl, refl, refl)
    item box second max = (_, refl, refl, refl, refl)
    item box second avg = (_, refl, refl, refl, refl)
    item box second val = (_, refl, refl, refl, refl)
    item box third min = (_, refl, refl, refl, refl)
    item box third max = (_, refl, refl, refl, refl)
    item box third avg = (_, refl, refl, refl, refl)
    item box third val = (_, refl, refl, refl, refl)
    item box fourth min = (_, refl, refl, refl, refl)
    item box fourth max = (_, refl, refl, refl, refl)
    item box fourth avg = (_, refl, refl, refl, refl)
    item box fourth val = (_, refl, refl, refl, refl)
    item spot first min = (_, refl, refl, refl, refl)
    item spot first max = (_, refl, refl, refl, refl)
    item spot first avg = (_, refl, refl, refl, refl)
    item spot first val = (_, refl, refl, refl, refl)
    item spot second min = (_, refl, refl, refl, refl)
    item spot second max = (_, refl, refl, refl, refl)
    item spot second avg = (_, refl, refl, refl, refl)
    item spot second val = (_, refl, refl, refl, refl)
    item spot third min = (_, refl, refl, refl, refl)
    item spot third max = (_, refl, refl, refl, refl)
    item spot third avg = (_, refl, refl, refl, refl)
    item spot third val = (_, refl, refl, refl, refl)
    item spot fourth min = (_, refl, refl, refl, refl)
    item spot fourth max = (_, refl, refl, refl, refl)
    item spot fourth avg = (_, refl, refl, refl, refl)
    item spot fourth val = (_, refl, refl, refl, refl)

    low : (k : Kind) (p : Place) (f : Field) → address k p f ≤ 51000
    low k p f = ground arith

    -- The data item of an address declares what readLepton gives for that address.
    abbrev pub Declares : (ℕ → Bytes) → Kind → Place → Field → Type 0
    Declares type_name k p f =
        (a : VariableAttributes) × (attributes_at (own (address k p f))
            (server_variables ts type_name)
          ≡ some a)
        × ((now : ℕ) (stamp : Bool) (v : DataValue F)
            → a.value ≡ declared_for f (read_lepton l now (address k p f) stamp false v).value)
        × (a.value_rank ≡ rank_for k f)
        × (a.access_level ≡ 0)

    item-Declares :
        (type_name : ℕ → Bytes) (k : Kind) (p : Place) (f : Field)
        → address k p f ≤ 51000
        → Declares type_name k p f
    unfolding server_variables
    item-Declares type_name k p f low =
        let (a, at, value, rank, level) = item k p f in
        (
          a,
          types-at ts type_name (address k p f) ts.diagnosticinfo_type 0 51000
                (metric ts ∷ lepton_variables ts 4 1) low
              ∙ at,
          λ now stamp v.
              value
              ∙ sym (ap (λ w. declared_for f w.value) ((read_lepton_lem l now stamp v).1 k p f)),
          rank,
          level,
        )

    -- The variables that `main` adds, with and without a source, are those of `server_variables`, in
    -- order. Each value has the type that is declared, if one is, and the rank that is; or it is a
    -- scalar whose rank is left at 0. The data item of each field of each box and spot declares the
    -- type that readLepton gives for its id, but for the averages, which declare none; it is neither
    -- readable nor writable by its access level, and has its rank set, to -1, only for the numbers of
    -- a box.
    pub variables_lem :
        (type_name : ℕ → Bytes)
        → (variables_of (server_nodes type_name ts.variant_type ts.diagnosticinfo_type)
            ≡ map (λ v. v.node) (server_variables ts type_name))
          × All (λ v. Sound v.attributes) (server_variables ts type_name)
          × ((k : Kind) (p : Place) (f : Field) → Declares type_name k p f)
    unfolding server_variables server_nodes depth_nodes lepton_nodes lepton_variables
    variables_lem type_name = (
      ap (λ ns. map (λ v. v.node) (first_variables ts) ++ ns)
          (types-variables ts type_name ts.diagnosticinfo_type 0 51000 _
            (metric ts ∷ lepton_variables ts 4 1) refl),
      (
        unranked ts,
        (
          _,
          types-Sound ts type_name ts.diagnosticinfo_type 0 51000 _
              ((inl refl, inl refl), lepton-Sound ts 4 1),
        ),
      ),
      λ k p f. item-Declares type_name k p f (low k p f),
    )
