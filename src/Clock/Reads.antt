-- ===== src/Clock/Reads.antt =====
-- What a client reads of the time.
use factory_thing.Base.{ℕ, ◌≡◌, ◌∙◌, refl, ap, some, List, [], ◌∷◌}
use factory_thing.CString.Defs.{equal}
use factory_thing.Clock.Defs.{
  before_read_time, after_write_time, ValueCallback, ServerLib, current_time, current_time_source,
  update_current_time, add_current_time_variable, handle, add_value_callback,
  add_current_time_source, set_up, Quiet, Documented,
}

-- What happens to the server while it runs: a client reads or writes the variable, or time goes by.
pub data Request : Type 0 where
  client_reads time_passes : Request
  client_writes : ℕ → Request

module _ {S : Type 0} (lib : ServerLib S) where
  unfoldable pub after_requests : List Request → S → S
  after_requests [] s = s
  after_requests (client_reads ∷ rest) s = after_requests rest (lib.read current_time s).1
  after_requests (time_passes ∷ rest) s = after_requests rest (lib.pass s)
  after_requests (client_writes v ∷ rest) s = after_requests rest (lib.write_value current_time v s)

  abbrev time_callback : ValueCallback
  time_callback = record { on_read = before_read_time; on_write = after_write_time }

  -- The variable is there, with its callback.
  abbrev Ready : S → Type 0
  Ready s =
      (v : ℕ) × (lib.value current_time s ≡ some v)
      × (lib.callback current_time s ≡ some time_callback)

  module _ (documented : Documented lib) where
    Ready-Quiet : (s : S) → Ready s → Quiet lib (lib.callback current_time s)
    unfolding handle
    Ready-Quiet s (v, e, c) = rw c (λ t. refl)

    write-Ready : (v : ℕ) (s : S) → Ready s → Ready (lib.write_value current_time v s)
    write-Ready v s ready =
        let (w, e, c) = ready in
        let quiet = Ready-Quiet s ready in
        (
          v,
          documented.written current_time v w s e quiet,
          documented.written_callback current_time v s quiet ∙ c,
        )

    -- A read gives the time at which it is made.
    read_ready :
        (s : S)
        → Ready s
        → lib.read current_time s ≡ (some (lib.now s), lib.write_value current_time (lib.now s) s)
    unfolding handle update_current_time
    read_ready s ready =
        let (w, e, c) = ready in
        let read = documented.read_callback current_time time_callback w s c e in
        let holds = documented.written current_time (lib.now s) w s e (Ready-Quiet s ready) in
        rw (read, holds) refl

    set_up-Ready : (s : S) → Ready (set_up lib s)
    unfolding set_up add_current_time_variable add_value_callback add_current_time_source
        update_current_time equal
    set_up-Ready s =
        let s1 = lib.add_variable_node current_time 0 s in
        let s2 = lib.write_value current_time (lib.now s1) s1 in
        let s3 = lib.set_value_callback current_time time_callback s2 in
        let quiet : Quiet lib (lib.callback current_time s1) =
          rw (documented.added_callback current_time 0 s) tt in
        let held =
          documented.written current_time (lib.now s1) 0 s1 (documented.added current_time 0 s)
            quiet in
        let (kept, kept_callback) = documented.source current_time current_time_source _ s3 refl in
        (
          lib.now s1,
          kept ∙ (documented.set current_time time_callback s2 ∙ held),
          kept_callback ∙ documented.set_callback current_time time_callback s2 (lib.now s1) held,
        )

    after_requests-Ready : (rest : List Request) (s : S) → Ready s → Ready (after_requests rest s)
    unfolding after_requests
    after_requests-Ready [] s ready = ready
    after_requests-Ready (client_reads ∷ rest) s ready =
        rw (read_ready s ready) (after_requests-Ready rest _ (write-Ready (lib.now s) s ready))
    after_requests-Ready (time_passes ∷ rest) s (v, e, c) =
        let (kept, kept_callback) = documented.passed current_time s in
        after_requests-Ready rest (lib.pass s) (v, kept ∙ e, kept_callback ∙ c)
    after_requests-Ready (client_writes v ∷ rest) s ready =
        after_requests-Ready rest (lib.write_value current_time v s) (write-Ready v s ready)

    -- On the server as `main` sets it up, whatever has been read of the variable "current-time" or
    -- written to it, and however much time has gone by, a read of it gives the time at which it is
    -- made, if the library keeps to what it documents of variables and their callbacks.
    pub after_requests_lem :
        (requests : List Request) (s : S)
        → (lib.read current_time (after_requests requests (set_up lib s))).0
          ≡ some (lib.now (after_requests requests (set_up lib s)))
    after_requests_lem requests s =
        ap (λ r. r.0)
          (read_ready (after_requests requests (set_up lib s))
            (after_requests-Ready requests (set_up lib s) (set_up-Ready s)))
