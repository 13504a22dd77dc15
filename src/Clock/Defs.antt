-- ===== src/Clock/Defs.antt =====
-- The server of the time, over the functions of open62541 that it calls.
use factory_thing.Base.{ℕ, ◌≡◌, false, Option, none, some}
use factory_thing.CString.Defs.{Bytes, lit, equal}

-- The functions that the server calls back, by their addresses.
pub data Handler : Type 0 where
  before_read_time after_write_time : Handler
  read_current_time write_current_time : Handler

-- UA_ValueCallback
pub record ValueCallback : Type 0 where
  pub on_read : Handler
  pub on_write : Handler

-- UA_DataSource
pub record DataSource : Type 0 where
  pub read : Handler
  pub write : Handler

-- What the library does with a server, which holds the time too. A variable is known by the text of
-- its id, in the first namespace.
pub record ServerLib (S : Type 0) : Type 0 where
  -- UA_DateTime_now
  pub now : S → ℕ
  -- UA_Server_addVariableNode, with a time as the first value
  pub add_variable_node : Bytes → ℕ → S → S
  -- UA_Server_writeValue, and the write request of a client
  pub write_value : Bytes → ℕ → S → S
  -- UA_Server_setVariableNode_valueCallback
  pub set_value_callback : Bytes → ValueCallback → S → S
  -- UA_Server_addDataSourceVariableNode
  pub add_data_source : Bytes → DataSource → S → S
  -- the read request of a client, with the value that it is given
  pub read : Bytes → S → Option ℕ × S
  -- time goes by
  pub pass : S → S
  -- the value that a variable holds, and its callback
  pub value : Bytes → S → Option ℕ
  pub callback : Bytes → S → Option ValueCallback

abbrev pub current_time : Bytes
current_time = lit "current-time"

abbrev pub current_time_source : Bytes
current_time_source = lit "current-time-datasource"

module _ {S : Type 0} (lib : ServerLib S) where
  unfoldable pub update_current_time : S → S
  update_current_time s = lib.write_value current_time (lib.now s) s

  unfoldable pub add_current_time_variable : S → S
  unfolding update_current_time
  add_current_time_variable s = update_current_time (lib.add_variable_node current_time 0 s)

  -- What a callback of a value does: beforeReadTime is updateCurrentTime over again, and
  -- afterWriteTime only prints. The other two are no callbacks of a value.
  unfoldable pub handle : Handler → S → S
  unfolding update_current_time
  handle before_read_time s = update_current_time s
  handle _ s = s

  unfoldable pub add_value_callback : S → S
  add_value_callback s =
      lib.set_value_callback current_time
        (record { on_read = before_read_time; on_write = after_write_time }) s

  unfoldable pub add_current_time_source : S → S
  add_current_time_source s =
      lib.add_data_source current_time_source
        (record { read = read_current_time; write = write_current_time }) s

  -- What `main` does with the server before it runs.
  unfoldable pub set_up : S → S
  unfolding add_current_time_variable add_value_callback add_current_time_source
  set_up s = add_current_time_source (add_value_callback (add_current_time_variable s))

  -- The callback for writes leaves the server as it is.
  abbrev pub Quiet : Option ValueCallback → Type 0
  Quiet none = Unit
  Quiet (some cb) = (s : S) → handle cb.on_write s ≡ s

  -- What the library documents of a variable: a callback is run before each read of it and behind
  -- each write, and otherwise it holds what was written last.
  pub record Documented : Type 0 where
    pub added : (id : Bytes) (v : ℕ) (s : S) → lib.value id (lib.add_variable_node id v s) ≡ some v
    pub added_callback :
        (id : Bytes) (v : ℕ) (s : S) → lib.callback id (lib.add_variable_node id v s) ≡ none
    pub written :
        (id : Bytes) (v w : ℕ) (s : S)
        → lib.value id s ≡ some w
        → Quiet (lib.callback id s)
        → lib.value id (lib.write_value id v s) ≡ some v
    pub written_callback :
        (id : Bytes) (v : ℕ) (s : S)
        → Quiet (lib.callback id s)
        → lib.callback id (lib.write_value id v s) ≡ lib.callback id s
    pub set :
        (id : Bytes) (cb : ValueCallback) (s : S)
        → lib.value id (lib.set_value_callback id cb s) ≡ lib.value id s
    pub set_callback :
        (id : Bytes) (cb : ValueCallback) (s : S) (v : ℕ)
        → lib.value id s ≡ some v
        → lib.callback id (lib.set_value_callback id cb s) ≡ some cb
    pub source :
        (id other : Bytes) (d : DataSource) (s : S)
        → equal id other ≡ false
        → (lib.value id (lib.add_data_source other d s) ≡ lib.value id s)
          × (lib.callback id (lib.add_data_source other d s) ≡ lib.callback id s)
    pub passed :
        (id : Bytes) (s : S)
        → (lib.value id (lib.pass s) ≡ lib.value id s)
          × (lib.callback id (lib.pass s) ≡ lib.callback id s)
    pub read_callback :
        (id : Bytes) (cb : ValueCallback) (v : ℕ) (s : S)
        → lib.callback id s ≡ some cb
        → lib.value id s ≡ some v
        → lib.read id s ≡ (lib.value id (handle cb.on_read s), handle cb.on_read s)
