-- ===== src/Clock/Tests.antt =====
-- A library that keeps its variables in functions, and the theorem at it.
use factory_thing.Base.{ℕ, ◌+◌, ◌≡◌, refl, Option, none, some, List, [], ◌∷◌, if◌then◌else◌}
use factory_thing.CString.Defs.{Bytes, equal}
use factory_thing.CString.Prefix.{equal_iff}
use factory_thing.Clock.Defs.{
  Handler, before_read_time, after_write_time, read_current_time, write_current_time, ValueCallback,
  ServerLib, current_time, update_current_time, handle, set_up, Documented,
}
use factory_thing.Clock.Reads.{
  Request, client_reads, time_passes, client_writes, after_requests, after_requests_lem,
}

record State : Type 0 where
  time : ℕ
  values : Bytes → Option ℕ
  callbacks : Bytes → Option ValueCallback

abbrev keep {ℓ} : {A : Type ℓ} → Bytes → A → (Bytes → A) → Bytes → A
keep id a f j = if equal j id then a else f j

keep_same {ℓ} : {A : Type ℓ} (id : Bytes) (a : A) (f : Bytes → A) → keep id a f id ≡ a
keep_same id a f = rw ((equal_iff id id).1 refl) refl

abbrev store : Bytes → ℕ → State → State
store id v s = record s { values = keep id (some v) s.values }

abbrev called_back : Option ValueCallback → State → State
called_back none s = s
called_back (some cb) s = after cb.on_read
  where
    after : Handler → State
    after before_read_time = store current_time s.time s
    after _ = s

abbrev lib : ServerLib State
lib = record {
  now = λ s. s.time;
  add_variable_node = λ id v s. record s {
    values = keep id (some v) s.values;
    callbacks = keep id none s.callbacks;
  };
  write_value = store;
  set_value_callback = λ id cb s. record s { callbacks = keep id (some cb) s.callbacks };
  add_data_source = λ id d s. s;
  read = λ id s. let s1 = called_back (s.callbacks id) s in (s1.values id, s1);
  pass = λ s. record s { time = s.time + 1 };
  value = λ id s. s.values id;
  callback = λ id s. s.callbacks id;
}

by_handler :
    (h : Handler) (cb : ValueCallback) (s : State)
    → cb.on_read ≡ h
    → called_back (some cb) s ≡ handle lib h s
unfolding handle update_current_time
by_handler before_read_time cb s e = rw e refl
by_handler after_write_time cb s e = rw e refl
by_handler read_current_time cb s e = rw e refl
by_handler write_current_time cb s e = rw e refl

lib-Documented : Documented lib
unfolding handle update_current_time
lib-Documented = record {
  added = λ id v s. keep_same id (some v) s.values;
  added_callback = λ id v s. keep_same id none s.callbacks;
  written = λ id v w s held quiet. keep_same id (some v) s.values;
  written_callback = λ id v s quiet. refl;
  set = λ id cb s. refl;
  set_callback = λ id cb s v held. keep_same id (some cb) s.callbacks;
  source = λ id other d s distinct. (refl, refl);
  passed = λ id s. (refl, refl);
  read_callback = λ id cb v s called held. rw (called, by_handler cb.on_read cb s refl) refl;
}

abbrev first : State
first = record { time = 5; values = λ id. none; callbacks = λ id. none }

abbrev requests : List Request
requests = client_reads ∷ client_writes 99 ∷ time_passes ∷ time_passes ∷ []

after_requests_lem_example :
    (lib.read current_time (after_requests lib requests (set_up lib first))).0
    ≡ some (lib.now (after_requests lib requests (set_up lib first)))
after_requests_lem_example = after_requests_lem lib lib-Documented requests first

time_test : lib.now (after_requests lib requests (set_up lib first)) ≡ 7
unfolding after_requests set_up equal
time_test = refl
