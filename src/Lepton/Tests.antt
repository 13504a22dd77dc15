-- ===== src/Lepton/Tests.antt =====
-- A device with numbers for its fields, and the theorem at it.
use factory_thing.Base.{ℕ, ◌+◌, ◌≡◌, refl, true, false, none, some}
use factory_thing.Lepton.Defs.{LeptonItem, Four, Lepton, float, DataValue, switch, read_lepton}
use factory_thing.Lepton.Read.{read_lepton_lem, spot, second, avg}

abbrev item : ℕ → LeptonItem ℕ
item n = record { min = n; max = n + 2; avg = n + 1; val = true }

abbrev four : ℕ → Four (LeptonItem ℕ)
four n = record {
  first = item n;
  second = item (n + 10);
  third = item (n + 20);
  fourth = item (n + 30);
}

abbrev pub device : Lepton ℕ
device = record { lepton_boxes = four 100; lepton_spots = four 200 }

abbrev empty : DataValue ℕ
empty = record {
  has_value = false;
  value = none;
  has_status = false;
  status = 0;
  has_source_timestamp = false;
  source_timestamp = 0;
}

-- NODEID_SPOT2_AVG
read_lepton_lem_example : read_lepton device 77 13203 true false empty ≡ record empty {
  value = some (float 211);
  has_value = true;
  has_source_timestamp = true;
  source_timestamp = 77;
}
read_lepton_lem_example = (read_lepton_lem device 77 true empty).1 spot second avg

other_test : read_lepton device 77 12005 true false empty ≡ empty
unfolding read_lepton switch
other_test = refl
