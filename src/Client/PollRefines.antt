-- ===== src/Client/PollRefines.antt =====
-- The thread with its client does what the loop over rounds of reads does.
use factory_thing.Base.{
  ℕ, zero, suc, ◌+◌, ◌<◌, ◌≡◌, refl, ap, subst, ◌∙◌, Bool, true, false, Option, some, List, [],
  ◌++◌, ◌==◌, arith, if◌then◌else◌, ok, Bool-cases, inl, inr, Fueled, and_then, and_then-inv,
}
use factory_thing.CString.Defs.{Bytes}
use factory_thing.Int.{ℤ}
use factory_thing.Config.Defs.{Configuration, Group}
use factory_thing.Config.Maps.{IsOrdered}
use factory_thing.Monitor.Value.{Value, Members}
use factory_thing.Monitor.Publish.{Message}
use factory_thing.Monitor.Round.{poll_round}
use factory_thing.Monitor.Loop.{PollInputs, round, Sends, last, more}
use factory_thing.Client.Defs.{Calls, ClientState}
use factory_thing.Client.Poll.{Device, live_round, live_group}
use factory_thing.Client.PollReads.{at, at-here, at-above, IsRead, live_round-poll_round}

module _ {F : Type 0} (print_f : F → Bytes) (to_json : Members F → Bytes) (c : Configuration)
    (g : Group) (w : Device F) where
  -- The inputs of the rounds, with those of one round put in.
  abbrev at_round : ℕ → (ℕ → Option (Value F)) → ℤ → Bool → PollInputs F → PollInputs F
  at_round i read time stop inputs = record {
    read = at i read inputs.read;
    time = at i time inputs.time;
    be_stop = at i stop inputs.be_stop;
  }

  abbrev SendsFor : PollInputs F → ℕ → ℕ → List Message → Type 0
  SendsFor inputs = Sends print_f to_json c g inputs

  round-above :
      (i j : ℕ) (read : ℕ → Option (Value F)) (time : ℤ) (stop : Bool) (inputs : PollInputs F)
      → i < j
      → round print_f to_json c g (at_round i read time stop inputs) j
        ≡ round print_f to_json c g inputs j
  round-above i j read time stop inputs lt =
      ap (λ t. poll_round print_f to_json c g t (at i read inputs.read j))
        (at-above i j time inputs.time lt)
      ∙ ap (λ r. poll_round print_f to_json c g (inputs.time j) r)
          (at-above i j read inputs.read lt)

  round-here :
      (i : ℕ) (read : ℕ → Option (Value F)) (time : ℤ) (stop : Bool) (inputs : PollInputs F)
      → round print_f to_json c g (at_round i read time stop inputs) i
        ≡ poll_round print_f to_json c g time read
  round-here i read time stop inputs =
      ap (λ t. poll_round print_f to_json c g t (at i read inputs.read i))
        (at-here i time inputs.time)
      ∙ ap (λ r. poll_round print_f to_json c g time r) (at-here i read inputs.read)

  Sends-above :
      (i : ℕ) (read : ℕ → Option (Value F)) (time : ℤ) (stop : Bool) (inputs : PollInputs F)
      (j k : ℕ) (ms : List Message)
      → i < j
      → SendsFor inputs j k ms
      → SendsFor (at_round i read time stop inputs) j k ms
  Sends-above i read time stop inputs j k ms lt (last _ _ halt e) =
      last j ms (at-above i j stop inputs.be_stop lt ∙ halt)
        (round-above i j read time stop inputs lt ∙ e)
  Sends-above i read time stop inputs j k ms lt (more _ _ ms1 later on e rest) =
      more j k ms1 later (at-above i j stop inputs.be_stop lt ∙ on)
        (round-above i j read time stop inputs lt ∙ e)
        (Sends-above i read time stop inputs (j + 1) k later (omega arith) rest)

  -- What the rounds meet is what the device gives at some time.
  pub record IsGiven (inputs : PollInputs F) : Type 0 where
    pub reads : (j : ℕ) → IsRead w (inputs.read j)
    pub times : (j : ℕ) → (calls : Calls) × (inputs.time j ≡ w.time calls)

  at_round-IsGiven :
      (i : ℕ) (read : ℕ → Option (Value F)) (calls : Calls) (stop : Bool) (inputs : PollInputs F)
      → IsRead w read
      → IsGiven inputs
      → IsGiven (at_round i read (w.time calls) stop inputs)
  at_round-IsGiven i read calls stop inputs given all = record {
    reads = λ j. elim (Bool-cases (i == j)) [ inl e ↦ rw e given | inr e ↦ rw e (all.reads j) ];
    times = λ j. elim (Bool-cases (i == j)) [
      | inl e ↦ (calls, rw e refl)
      | inr e ↦ let (calls1, e1) = all.times j in (calls1, rw e e1)
    ];
  }

  -- The messages are those of a loop over rounds, from round `i` on.
  abbrev pub Refined : ℕ → List Message → Type 0
  Refined i ms =
      (inputs : PollInputs F) × (k : ℕ) × IsGiven inputs × Sends print_f to_json c g inputs i k ms

  -- What `live_group` gives behind a round.
  abbrev behind :
      Bool
      → List Message
      → ClientState
      → Fueled (List Message × ClientState)
      → Fueled (List Message × ClientState)
  behind halt ms1 s2 rest =
      if halt
      then ok (some (ms1, s2))
      else and_then rest (λ (later, s3). ok (some (ms1 ++ later, s3)))

  -- One round, and what follows it.
  round-Refined :
      (i : ℕ) (halt : Bool) (s2 s1 : ClientState) (ms1 ms : List Message)
      (read : ℕ → Option (Value F)) (calls : Calls) (rest : Fueled (List Message × ClientState))
      → IsRead w read
      → poll_round print_f to_json c g (w.time calls) read ≡ ok ms1
      → ((later : List Message) (s3 : ClientState)
          → rest ≡ ok (some (later, s3))
          → Refined (i + 1) later)
      → behind halt ms1 s2 rest ≡ ok (some (ms, s1))
      → Refined i ms
  round-Refined i true s2 s1 ms1 ms read calls rest given one follow h =
      let time = w.time calls in
      let none_after : PollInputs F = record {
        read = λ j q. w.read [];
        time = λ j. w.time [];
        be_stop = λ j. true;
      } in
      let inputs = at_round i read time true none_after in
      (
        inputs,
        i,
        at_round-IsGiven i read calls true none_after given
            (record { reads = λ j q. ([], refl); times = λ j. ([], refl) }),
        subst (SendsFor inputs i i) (cc (h)) (
            last i ms1 (at-here i true none_after.be_stop)
              (round-here i read time true none_after ∙ one)),
      )
  round-Refined i false s2 s1 ms1 ms read calls rest given one follow h =
      let time = w.time calls in
      let ((later, s3), e, h1) = and_then-inv rest _ h in
      let (after, k, all, sent) = follow later s3 e in
      let inputs = at_round i read time false after in
      (
        inputs,
        k,
        at_round-IsGiven i read calls false after given all,
        subst (SendsFor inputs i k) (cc (h1)) (
            more i k ms1 later (at-here i false after.be_stop)
              (round-here i read time false after ∙ one)
              (Sends-above i read time false after (i + 1) k later (omega arith) sent)),
      )

  -- A thread that comes to its end, for a group whose keys are in order, has sent what the loop over
  -- rounds sends for reads and times that the device gives: so a connection that is lost and
  -- made again only leaves out values.
  pub live_group_refines :
      (fuel i : ℕ) (s s1 : ClientState) (ms : List Message)
      → IsOrdered g.nodes
      → live_group print_f to_json c g w fuel s ≡ ok (some (ms, s1))
      → Refined i ms
  unfolding live_group
  live_group_refines zero i s s1 ms ordered h = cc
  live_group_refines (suc fuel) i s s1 ms ordered h =
      let ((ms1, s2), e, h1) = and_then-inv (live_round print_f to_json c g w s) _ h in
      let (read, given, calls, one) =
        live_round-poll_round print_f to_json c g w s s2 ms1 ordered e in
      round-Refined i (w.server.be_stop s2.calls) s2 s1 ms1 ms read calls
        (live_group print_f to_json c g w fuel s2) given one
        (λ later s3 e1. live_group_refines fuel (i + 1) s2 s3 later ordered e1) h1
