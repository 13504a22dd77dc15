-- ===== src/Monitor/Shared.antt =====
-- The buffer `topic` of `opcua_poll_group`, which is static: all polling threads print into it.
use factory_thing.Base.{
  ℕ, ◌≡◌, Option, some, List, [], ◌∷◌, ◌++◌, Run, ok, ◌>>=◌, need, if◌then◌else◌,
}
use factory_thing.CString.Defs.{Bytes, lit}
use factory_thing.Int.{ℤ}
use factory_thing.Config.Defs.{Configuration, Group}
use factory_thing.Config.Modes.{json, key_val, get_payload_format}
use factory_thing.Monitor.Value.{new_int64, Members, is_empty, sprintf}
use factory_thing.Monitor.Publish.{Message, publish}
use factory_thing.Monitor.Callback.{path}
use factory_thing.Monitor.Round.{Gathered, pair, print_unsigned, joined, poll_message}

-- A round that has read its nodes: the group, what `epoch()` gives, and what was gathered.
pub record Gotten (F : Type 0) : Type 0 where
  pub group : Group
  pub time : ℤ
  pub gathered : Gathered F

-- What the thread of a round does to the buffer: it prints the topic into it, and publishes under
-- what it holds then. The rounds of all threads are numbered.
pub data Event : Type 0 where
  formats publishes : ℕ → Event

module _ {F : Type 0} (print_f : F → Bytes) (to_json : Members F → Bytes) (c : Configuration) where
  -- sprintf(topic, …)
  unfoldable pub format_topic : Group → Run Bytes
  format_topic g = do
    group_topic ← need g.topic
    sprintf 64 (path c.topic_base (c.device_id ∷ group_topic ∷ []))

  -- What follows it, with what the buffer holds.
  unfoldable pub publish_under : Gotten F → Bytes → Run (List Message)
  publish_under r topic = if is_empty r.gathered.members then ok [] else (do
    skv ← sprintf 32 (pair (lit "time") (print_unsigned r.time))
    format ← need r.group.format
    let contents = to_json (r.gathered.members ++ ((lit "time", new_int64 r.time) ∷ []))
    let line = joined r.gathered.kvs skv
    elim (get_payload_format format) [
      | json ↦ publish r.group topic contents (contents ++ (10 ∷ []))
      | key_val ↦ publish r.group topic line line
    ])

  module _ (rounds : ℕ → Gotten F) where
    -- The messages that are sent, in an order of the steps of all threads.
    unfoldable pub interleaved : List Event → Bytes → Run (List Message)
    interleaved [] topic = ok []
    interleaved (formats i ∷ events) topic = do
      printed ← format_topic (rounds i).group
      interleaved events printed
    interleaved (publishes i ∷ events) topic = do
      ms ← publish_under (rounds i) topic
      later ← interleaved events topic
      ok (ms ++ later)

    -- The messages of the rounds that publish, each as if it were alone.
    unfoldable pub each_alone : List Event → Run (List Message)
    each_alone [] = ok []
    each_alone (formats i ∷ events) = each_alone events
    each_alone (publishes i ∷ events) = do
      let r = rounds i
      ms ← poll_message print_f to_json c r.group r.time r.gathered
      later ← each_alone events
      ok (ms ++ later)

    -- A round publishes only while its own topic is the last that was printed.
    abbrev pub Undisturbed : Option ℕ → List Event → Type 0
    Undisturbed last [] = Unit
    Undisturbed last (formats i ∷ events) = Undisturbed (some i) events
    Undisturbed last (publishes i ∷ events) = (last ≡ some i) × Undisturbed last events

    -- The buffer holds the topic of the last round that has printed it.
    abbrev Holds : Option ℕ → Bytes → Type 0
    Holds last topic = (i : ℕ) → last ≡ some i → format_topic (rounds i).group ≡ ok topic
