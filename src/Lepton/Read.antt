-- ===== src/Lepton/Read.antt =====
-- Which node ids `readLepton` serves, and with what.
use factory_thing.Base.{
  ℕ, ◌+◌, ◌*◌, ◌≡◌, ◌≢◌, refl, Bool, true, false, some, List, [], ◌∷◌, ◌++◌, map, ◌==◌, All,
  if◌then◌else◌, Bool-cases, Option-cases, inl, inr, ==_iff, subst,
}
use factory_thing.Lepton.Defs.{
  LeptonItem, Four, Lepton, Scalar, float, boolean, bad_index_range_invalid, DataValue, switch,
  box_cases, spot_cases, read_lepton,
}

-- The parts of an address.
pub data Kind : Type 0 where
  box spot : Kind

pub data Place : Type 0 where
  first second third fourth : Place

pub data Field : Type 0 where
  min max avg val : Field

abbrev pub place_number : Place → ℕ
place_number first = 1
place_number second = 2
place_number third = 3
place_number fourth = 4

abbrev pub field_number : Field → ℕ
field_number min = 1
field_number max = 2
field_number avg = 3
field_number val = 4

-- Boxes are numbered from 12000, spots from 13000, a hundred ids each, of which four are fields.
abbrev pub address : Kind → Place → Field → ℕ
address box p f = 12000 + 100 * place_number p + field_number f
address spot p f = 13000 + 100 * place_number p + field_number f

abbrev pub at_place : {A : Type 0} → Four A → Place → A
at_place x first = x.first
at_place x second = x.second
at_place x third = x.third
at_place x fourth = x.fourth

abbrev pub field_of : {F : Type 0} → LeptonItem F → Field → Scalar F
field_of i min = float i.min
field_of i max = float i.max
field_of i avg = float i.avg
field_of i val = boolean i.val

abbrev pub item_of : {F : Type 0} → Lepton F → Kind → Place → LeptonItem F
item_of l box p = at_place l.lepton_boxes p
item_of l spot p = at_place l.lepton_spots p

switch-All :
    {A : Type 0} (P : ℕ × A → Type 0) (n : ℕ) (cases : List (ℕ × A)) {a : A}
    → All P cases
    → switch n cases ≡ some a
    → P (n, a)
unfolding switch
switch-All P n [] all h = cc
switch-All P n ((k, b) ∷ cases) {a} (p, all) h = elim (Bool-cases (n == k)) [
  | inl e ↦ let here : some b ≡ some a = rw e at h in subst P (cc (here, (==_iff n k).0 e)) p
  | inr e ↦ switch-All P n cases all (rw e at h)
]

module _ {F : Type 0} (l : Lepton F) where
  -- A case of the switch is that of a field.
  abbrev Served : ℕ × Scalar F → Type 0
  Served (n, x) =
      (k : Kind) × (p : Place) × (f : Field) × (n ≡ address k p f)
      × (x ≡ field_of (item_of l k p) f)

  abbrev Triple : Type 0
  Triple = Kind × Place × Field

  -- The addresses in the order of the cases.
  abbrev triples : List Triple
  triples = of box ++ of spot
    where
      at : Kind → Place → List Triple
      at k p = (k, p, min) ∷ (k, p, max) ∷ (k, p, avg) ∷ (k, p, val) ∷ []

      of : Kind → List Triple
      of k = at k first ++ (at k second ++ (at k third ++ at k fourth))

  abbrev entry : Triple → ℕ × Scalar F
  entry (k, p, f) = (address k p f, field_of (item_of l k p) f)

  entries-Served : (ts : List Triple) → All Served (map entry ts)
  entries-Served [] = _
  entries-Served ((k, p, f) ∷ ts) = ((k, p, f, refl, refl), entries-Served ts)

  cases-Served : All Served (box_cases l ++ spot_cases l)
  cases-Served = entries-Served triples

  switch-address :
      (k : Kind) (p : Place) (f : Field)
      → switch (address k p f) (box_cases l ++ spot_cases l) ≡ some (field_of (item_of l k p) f)
  unfolding switch
  switch-address box first min = refl
  switch-address box first max = refl
  switch-address box first avg = refl
  switch-address box first val = refl
  switch-address box second min = refl
  switch-address box second max = refl
  switch-address box second avg = refl
  switch-address box second val = refl
  switch-address box third min = refl
  switch-address box third max = refl
  switch-address box third avg = refl
  switch-address box third val = refl
  switch-address box fourth min = refl
  switch-address box fourth max = refl
  switch-address box fourth avg = refl
  switch-address box fourth val = refl
  switch-address spot first min = refl
  switch-address spot first max = refl
  switch-address spot first avg = refl
  switch-address spot first val = refl
  switch-address spot second min = refl
  switch-address spot second max = refl
  switch-address spot second avg = refl
  switch-address spot second val = refl
  switch-address spot third min = refl
  switch-address spot third max = refl
  switch-address spot third avg = refl
  switch-address spot third val = refl
  switch-address spot fourth min = refl
  switch-address spot fourth max = refl
  switch-address spot fourth avg = refl
  switch-address spot fourth val = refl

  -- The value that a read with a field's address leaves.
  abbrev pub filled : ℕ → Bool → Scalar F → DataValue F → DataValue F
  filled now stamp x v = record v {
    value = some x;
    has_value = true;
    has_source_timestamp = if stamp then true else v.has_source_timestamp;
    source_timestamp = if stamp then now else v.source_timestamp;
  }

  -- `readLepton` refuses a range by the status of the value. Otherwise the address of a field of a
  -- box or spot gives that field, with the time if it is asked for; any other id leaves the value as
  -- it is.
  pub read_lepton_lem :
      (now : ℕ) (stamp : Bool) (v : DataValue F)
      → ((n : ℕ)
          → read_lepton l now n stamp true v
            ≡ record v { has_status = true; status = bad_index_range_invalid })
        × ((k : Kind) (p : Place) (f : Field)
            → read_lepton l now (address k p f) stamp false v
              ≡ filled now stamp (field_of (item_of l k p) f) v)
        × ((n : ℕ)
            → ((k : Kind) (p : Place) (f : Field) → n ≢ address k p f)
            → read_lepton l now n stamp false v ≡ v)
  unfolding read_lepton
  read_lepton_lem now stamp v = (
    λ n. refl,
    λ k p f. rw (switch-address k p f) (stamped stamp (field_of (item_of l k p) f)),
    λ n other. elim (Option-cases (switch n (box_cases l ++ spot_cases l))) [
      | inl e ↦ rw e refl
      | inr (x, e) ↦
          let (k, p, f, is, _) = switch-All Served n (box_cases l ++ spot_cases l) cases-Served e in
          absurd (other k p f is)
    ],
  )
    where
      stamped :
          (stamp : Bool) (x : Scalar F)
          → (let w = record v { value = some x; has_value = true } in
              if stamp then record w { has_source_timestamp = true; source_timestamp = now } else w)
            ≡ filled now stamp x v
      stamped true x = refl
      stamped false x = refl
