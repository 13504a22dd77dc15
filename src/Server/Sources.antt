-- ===== src/Server/Sources.antt =====
-- The sources of values, with what UA_DataSource of ua_server.h asks of them: readTimeData of
-- open62541_mqtt/mqtt/server.c, readLepton, and readCurrentTime of opcua-mqtt.c beside it.
use factory_thing.Base.{ℕ, ◌≡◌, refl, ap, Bool, true, false, some, none, if◌then◌else◌}
use factory_thing.Lepton.Defs.{Lepton, date_time, DataValue, bad_index_range_invalid, read_lepton}
use factory_thing.Lepton.Read.{Kind, Place, Field, address, read_lepton_lem}

-- A source by whether the time is asked for, and whether there is a range.
abbrev pub Source : Type 0 → Type 0
Source F = Bool → Bool → DataValue F → DataValue F

-- What is asked: a scalar has no ranges, so the status says that, and no value is given; without a
-- range there is a value, and its time if that is asked for.
abbrev pub Meets : {F : Type 0} → Source F → Type 0
Meets read =
    ((stamp : Bool) (v : _)
      → ((read stamp true v).has_status ≡ true)
        × ((read stamp true v).status ≡ bad_index_range_invalid)
        × ((read stamp true v).value ≡ v.value))
    × ((stamp : Bool) (v : _) → (read stamp false v).has_value ≡ true)
    × ((v : _) → (read true false v).has_source_timestamp ≡ true)

module _ {F : Type 0} (now : ℕ) where
  -- readTimeData; `now` is UA_DateTime_now(), and the copy of the scalar is taken to succeed.
  unfoldable pub read_time : Source F
  read_time source_time_stamp range v =
      if range
      then record v { has_status = true; status = bad_index_range_invalid }
      else (let w = record v { value = some (date_time now); has_value = true } in
          if source_time_stamp
          then record w { has_source_timestamp = true; source_timestamp = now }
          else w)

  -- readCurrentTime, by the same.
  unfoldable pub read_current_time : Source F
  read_current_time source_time_stamp range v = record v {
    value = some (date_time now);
    has_value = true;
  }

  pub read_time-Meets : Meets read_time
  unfolding read_time
  read_time-Meets = (λ stamp v. (refl, refl, refl), λ stamp v. with_value stamp v, λ v. refl)
    where
      with_value : (stamp : Bool) (v : DataValue F) → (read_time stamp false v).has_value ≡ true
      with_value true v = refl
      with_value false v = refl

  pub read_lepton-Meets :
      (l : Lepton F) (k : Kind) (p : Place) (f : Field) → Meets (read_lepton l now (address k p f))
  read_lepton-Meets l k p f = (
    λ stamp v.
        let e = (read_lepton_lem l now stamp v).0 (address k p f) in
        (ap (λ w. w.has_status) e, ap (λ w. w.status) e, ap (λ w. w.value) e),
    λ stamp v. ap (λ w. w.has_value) ((read_lepton_lem l now stamp v).1 k p f),
    λ v. ap (λ w. w.has_source_timestamp) ((read_lepton_lem l now true v).1 k p f),
  )

  -- The value that a read starts from.
  abbrev fresh : DataValue F
  fresh = record {
    has_value = false;
    value = none;
    has_status = false;
    status = 0;
    has_source_timestamp = false;
    source_timestamp = 0;
  }

  -- Without a range, readCurrentTime gives what readTimeData gives if no time is asked for. But it
  -- does not meet what the library asks of a source.
  read_current_time_lem :
      ((v : DataValue F) → read_current_time false false v ≡ read_time false false v)
      × ¬ Meets read_current_time
  unfolding read_current_time read_time
  read_current_time_lem = (λ v. refl, λ meets. absurd (false_is_true (meets.0 true fresh).0))
    where
      false_is_true : false ≡ true → ⊥
      false_is_true h = cc
