-- ===== src/Monitor/Loop.antt =====
-- The loop of `opcua_poll_group` over its rounds.
use factory_thing.Base.{
  ℕ, zero, suc, ◌+◌, ◌≤◌, ◌≡◌, refl, ap, sym, subst, ◌∙◌, Bool, true, false, Option, none, some,
  List, ◌++◌, arith, if◌then◌else◌, Bool-cases, inl, inr, Run, ok, ◌>>=◌,
}
use factory_thing.CString.Defs.{Bytes}
use factory_thing.Int.{ℤ}
use factory_thing.Config.Defs.{Configuration, Group}
use factory_thing.Monitor.Value.{Value, Members}
use factory_thing.Monitor.Publish.{Message}
use factory_thing.Monitor.Round.{poll_round}
use factory_thing.Monitor.Pairs.{Returns}

-- What a thread meets, by the number of the round: the values read by the keys of the nodes, what
-- `epoch()` gives, and whether a signal has set `beStop` by the end of the round.
pub record PollInputs (F : Type 0) : Type 0 where
  pub read : ℕ → ℕ → Option (Value F)
  pub time : ℕ → ℤ
  pub be_stop : ℕ → Bool

add_zero : (i : ℕ) → i + 0 ≡ i
add_zero i = omega arith

add_suc : (i n : ℕ) → i + suc n ≡ i + 1 + n
add_suc i n = omega arith

bool_clash : true ≡ false → ⊥
bool_clash h = cc

module _ {F : Type 0} (print_f : F → Bytes) (to_json : Members F → Bytes) (c : Configuration)
    (g : Group) (inputs : PollInputs F) where
  abbrev pub round : ℕ → Run (List Message)
  round i = poll_round print_f to_json c g (inputs.time i) (inputs.read i)

  -- do { … } while (!beStop), from round `i` on: the messages sent. `none` if the fuel runs out.
  unfoldable pub opcua_poll_group : ℕ → ℕ → Run (Option (List Message))
  opcua_poll_group zero i = ok none
  opcua_poll_group (suc fuel) i = do
    ms ← round i
    let rest = opcua_poll_group fuel (i + 1)
    if inputs.be_stop i
        then ok (some ms)
        else (do later ← rest; ok (elim later [ none ↦ none | some ms1 ↦ some (ms ++ ms1) ]))

  -- The messages of the rounds from one to another, which is the first to end with a stop.
  pub data Sends : ℕ → ℕ → List Message → Type 0 where
    last : (i : ℕ) (ms : List Message) → inputs.be_stop i ≡ true → round i ≡ ok ms → Sends i i ms
    more :
        (i k : ℕ) (ms rest : List Message)
        → inputs.be_stop i ≡ false
        → round i ≡ ok ms
        → Sends (i + 1) k rest
        → Sends i k (ms ++ rest)

  goes_on : (i : ℕ) → inputs.be_stop (i + 0) ≡ true → inputs.be_stop i ≡ false → ⊥
  goes_on i stop on = elim (bool_clash (sym stop ∙ (ap inputs.be_stop (add_zero i) ∙ on))) [ ]

  -- One round, and what follows it if there is no stop.
  step :
      (fuel i : ℕ) (ms : List Message)
      → round i ≡ ok ms
      → (inputs.be_stop i ≡ false
          → (k : ℕ) × (later : List Message) × (opcua_poll_group fuel (i + 1) ≡ ok (some later))
            × Sends (i + 1) k later)
      → (k : ℕ) × (all : List Message) × (opcua_poll_group (suc fuel) i ≡ ok (some all))
        × Sends i k all
  unfolding opcua_poll_group
  step fuel i ms e follow = elim (Bool-cases (inputs.be_stop i)) [
    | inl stop ↦ (i, ms, rw (e, stop) refl, last i ms stop e)
    | inr on ↦
        let (k, later, e1, sends) = follow on in
        (k, ms ++ later, rw (e, on, e1) refl, more i k ms later on e sends)
  ]

  -- Where a signal comes by the end of round i + n, and no round up to that one faults, fuel of
  -- n + 1 is enough from round i on: the messages are those of the rounds up to the first that ends
  -- with a stop, in order.
  opcua_poll_group_total :
      (n i : ℕ)
      → inputs.be_stop (i + n) ≡ true
      → ((j : ℕ) → j ≤ i + n → Returns (round j))
      → (k : ℕ) × (ms : List Message) × (opcua_poll_group (suc n) i ≡ ok (some ms)) × Sends i k ms
  opcua_poll_group_total zero i stop returns =
      let (ms, e) = returns i (omega arith) in step zero i ms e (λ on. absurd (goes_on i stop on))
  opcua_poll_group_total (suc n) i stop returns =
      let (ms, e) = returns i (omega arith) in
      step (suc n) i ms e (λ on.
        opcua_poll_group_total n (i + 1) (subst (λ j. inputs.be_stop j ≡ true) (add_suc i n) stop)
          (λ j below. returns j (omega arith)))
