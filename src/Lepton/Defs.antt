-- ===== src/Lepton/Defs.antt =====
-- `readLepton`, as a table of the cases of its switch.
use factory_thing.Base.{
  ℕ, ◌+◌, Bool, true, Option, none, some, List, [], ◌∷◌, ◌++◌, ◌==◌, if◌then◌else◌,
}

abbrev pub baseid : ℕ
baseid = 10000

abbrev pub boxesid : ℕ
boxesid = baseid + 2000

abbrev pub spotsid : ℕ
spotsid = baseid + 3000

abbrev pub nodeid_box1 : ℕ
nodeid_box1 = boxesid + 100

abbrev pub nodeid_box2 : ℕ
nodeid_box2 = boxesid + 200

abbrev pub nodeid_box3 : ℕ
nodeid_box3 = boxesid + 300

abbrev pub nodeid_box4 : ℕ
nodeid_box4 = boxesid + 400

abbrev pub nodeid_spot1 : ℕ
nodeid_spot1 = spotsid + 100

abbrev pub nodeid_spot2 : ℕ
nodeid_spot2 = spotsid + 200

abbrev pub nodeid_spot3 : ℕ
nodeid_spot3 = spotsid + 300

abbrev pub nodeid_spot4 : ℕ
nodeid_spot4 = spotsid + 400

-- `F` stands for C's float.
pub record LeptonItem (F : Type 0) : Type 0 where
  pub min : F
  pub max : F
  pub avg : F
  pub val : Bool

-- An array of four.
pub record Four (A : Type 0) : Type 0 where
  pub first : A
  pub second : A
  pub third : A
  pub fourth : A

-- leptonBoxes and leptonSpots
pub record Lepton (F : Type 0) : Type 0 where
  pub lepton_boxes : Four (LeptonItem F)
  pub lepton_spots : Four (LeptonItem F)

-- What UA_Variant_setScalarCopy is given.
pub data Scalar (F : Type 0) : Type 0 where
  float : F → Scalar F
  boolean : Bool → Scalar F
  date_time : ℕ → Scalar F

abbrev pub bad_index_range_invalid : ℕ
bad_index_range_invalid = 0x8036_0000

-- UA_DataValue: each field with its `has…` flag, but for the variant, which has its own.
pub record DataValue (F : Type 0) : Type 0 where
  pub has_value : Bool
  pub value : Option (Scalar F)
  pub has_status : Bool
  pub status : ℕ
  pub has_source_timestamp : Bool
  pub source_timestamp : ℕ

-- The case of a switch.
unfoldable pub switch {ℓ} : {A : Type ℓ} → ℕ → List (ℕ × A) → Option A
switch n [] = none
switch n ((k, a) ∷ cases) = let rest = switch n cases in if n == k then some a else rest

module _ {F : Type 0} (l : Lepton F) where
  abbrev pub box_cases : List (ℕ × Scalar F)
  box_cases =
      (nodeid_box1 + 1, float l.lepton_boxes.first.min)
      ∷ (nodeid_box1 + 2, float l.lepton_boxes.first.max)
      ∷ (nodeid_box1 + 3, float l.lepton_boxes.first.avg)
      ∷ (nodeid_box1 + 4, boolean l.lepton_boxes.first.val)
      ∷ (nodeid_box2 + 1, float l.lepton_boxes.second.min)
      ∷ (nodeid_box2 + 2, float l.lepton_boxes.second.max)
      ∷ (nodeid_box2 + 3, float l.lepton_boxes.second.avg)
      ∷ (nodeid_box2 + 4, boolean l.lepton_boxes.second.val)
      ∷ (nodeid_box3 + 1, float l.lepton_boxes.third.min)
      ∷ (nodeid_box3 + 2, float l.lepton_boxes.third.max)
      ∷ (nodeid_box3 + 3, float l.lepton_boxes.third.avg)
      ∷ (nodeid_box3 + 4, boolean l.lepton_boxes.third.val)
      ∷ (nodeid_box4 + 1, float l.lepton_boxes.fourth.min)
      ∷ (nodeid_box4 + 2, float l.lepton_boxes.fourth.max)
      ∷ (nodeid_box4 + 3, float l.lepton_boxes.fourth.avg)
      ∷ (nodeid_box4 + 4, boolean l.lepton_boxes.fourth.val)
      ∷ []

  abbrev pub spot_cases : List (ℕ × Scalar F)
  spot_cases =
      (nodeid_spot1 + 1, float l.lepton_spots.first.min)
      ∷ (nodeid_spot1 + 2, float l.lepton_spots.first.max)
      ∷ (nodeid_spot1 + 3, float l.lepton_spots.first.avg)
      ∷ (nodeid_spot1 + 4, boolean l.lepton_spots.first.val)
      ∷ (nodeid_spot2 + 1, float l.lepton_spots.second.min)
      ∷ (nodeid_spot2 + 2, float l.lepton_spots.second.max)
      ∷ (nodeid_spot2 + 3, float l.lepton_spots.second.avg)
      ∷ (nodeid_spot2 + 4, boolean l.lepton_spots.second.val)
      ∷ (nodeid_spot3 + 1, float l.lepton_spots.third.min)
      ∷ (nodeid_spot3 + 2, float l.lepton_spots.third.max)
      ∷ (nodeid_spot3 + 3, float l.lepton_spots.third.avg)
      ∷ (nodeid_spot3 + 4, boolean l.lepton_spots.third.val)
      ∷ (nodeid_spot4 + 1, float l.lepton_spots.fourth.min)
      ∷ (nodeid_spot4 + 2, float l.lepton_spots.fourth.max)
      ∷ (nodeid_spot4 + 3, float l.lepton_spots.fourth.avg)
      ∷ (nodeid_spot4 + 4, boolean l.lepton_spots.fourth.val)
      ∷ []

  -- readLepton for `nodeId.identifier.numeric`, which is read whatever the kind of the id; `now` is
  -- UA_DateTime_now(), and the copy of the scalar is taken to succeed.
  unfoldable pub read_lepton : ℕ → ℕ → Bool → Bool → DataValue F → DataValue F
  read_lepton now numeric source_time_stamp range v =
      if range
      then record v { has_status = true; status = bad_index_range_invalid }
      else elim (switch numeric (box_cases ++ spot_cases)) [
        | none ↦ v
        | some x ↦
            let w = record v { value = some x; has_value = true } in
            if source_time_stamp
            then record w { has_source_timestamp = true; source_timestamp = now }
            else w
      ]
