-- ===== src/Client/PollReads.antt =====
-- What the thread with its client reads in a round.
use factory_thing.Base.{
  ℕ, ◌<◌, ◌≡◌, refl, ap, ◌∙◌, true, false, Option, none, some, List, [], ◌∷◌, ◌==◌, arith,
  if◌then◌else◌, ok, ◌>>=◌, bind-inv, Bool-cases, inl, inr, and_then-inv,
}
use factory_thing.CString.Defs.{Bytes}
use factory_thing.Config.Defs.{Configuration, Group, Node, Map}
use factory_thing.Config.Maps.{IsOrdered, Above}
use factory_thing.Monitor.Value.{Value, Members}
use factory_thing.Monitor.Publish.{Message}
use factory_thing.Monitor.Round.{Gathered, poll_node, poll_nodes, poll_message, poll_round}
use factory_thing.Client.Defs.{read_value_attribute, Calls, ClientState, use_client, reconnect}
use factory_thing.Client.Poll.{Device, slept, live_value, live_node, live_nodes, live_round}

-- A function of the keys, changed at one.
abbrev pub at {ℓ} : {A : Type ℓ} → ℕ → A → (ℕ → A) → ℕ → A
at k a f q = if k == q then a else f q

pub at-here {ℓ} : {A : Type ℓ} (k : ℕ) (a : A) (f : ℕ → A) → at k a f k ≡ a
at-here k a f = rw (same k) refl
  where
    same : (k : ℕ) → (k == k) ≡ true
    same k = ground arith

pub at-above {ℓ} : {A : Type ℓ} (k q : ℕ) (a : A) (f : ℕ → A) → k < q → at k a f q ≡ f q
at-above k q a f lt = rw (other k q lt) refl
  where
    other : (k q : ℕ) → k < q → (k == q) ≡ false
    other k q lt = ground arith

module _ {F : Type 0} (print_f : F → Bytes) where
  -- Only what is read at the keys of the nodes matters.
  poll_nodes-Above :
      (k : ℕ) (v : Option (Value F)) (read : ℕ → Option (Value F)) (nodes : Map Node)
      (got : Gathered F)
      → Above k nodes
      → poll_nodes print_f (at k v read) nodes got ≡ poll_nodes print_f read nodes got
  unfolding poll_nodes
  poll_nodes-Above k v read [] got above = refl
  poll_nodes-Above k v read ((j, d) ∷ nodes) got (lt, above) =
      ap (λ o. poll_node print_f d o got >>= λ next. poll_nodes print_f (at k v read) nodes next)
        (at-above k j v read lt)
      ∙ ap (λ rest. poll_node print_f d (read j) got >>= rest)
          (λ i next. poll_nodes-Above k v read nodes next above i)

module _ {F : Type 0} (w : Device F) where
  -- What is read, by the keys of the nodes, is what the device gives at some time.
  abbrev pub IsRead : (ℕ → Option (Value F)) → Type 0
  IsRead read = (q : ℕ) → (calls : Calls) × (read q ≡ w.read calls)

  at-IsRead :
      (k : ℕ) (calls : Calls) (read : ℕ → Option (Value F))
      → IsRead read
      → IsRead (at k (w.read calls) read)
  at-IsRead k calls read given q = elim (Bool-cases (k == q)) [
    | inl e ↦ (calls, rw e refl)
    | inr e ↦ let (calls1, e1) = given q in (calls1, rw e e1)
  ]

module _ {F : Type 0} (print_f : F → Bytes) (to_json : Members F → Bytes) (c : Configuration)
    (g : Group) (w : Device F) where
  live_value-poll_node :
      (d : Node) (got next : Gathered F) (s s1 : ClientState) (v : Option (Value F))
      → live_value print_f to_json c g w d got s v ≡ ok (some (next, s1))
      → poll_node print_f d v got ≡ ok next
  unfolding live_value poll_node
  live_value-poll_node d got next s s1 none h =
      let (s2, _, e) = and_then-inv (reconnect w.server 2 (slept s)) _ h in cc
  live_value-poll_node d got next s s1 (some v) h =
      let (next1, e, e1) = bind-inv (poll_node print_f d (some v) got) _ h in e ∙ cc

  live_node-poll_node :
      (d : Node) (got next : Gathered F) (s s1 : ClientState)
      → live_node print_f to_json c g w d got s ≡ ok (some (next, s1))
      → (calls : Calls) × (poll_node print_f d (w.read calls) got ≡ ok next)
  unfolding live_node
  live_node-poll_node d got next s s1 h =
      let (s2, _, e) = bind-inv (use_client read_value_attribute s) _ h in
      (s2.calls, live_value-poll_node d got next s2 s1 (w.read s2.calls) e)

  live_nodes-poll_nodes :
      (nodes : Map Node) (got r : Gathered F) (s s1 : ClientState)
      → IsOrdered nodes
      → live_nodes print_f to_json c g w nodes got s ≡ ok (some (r, s1))
      → (read : ℕ → Option (Value F)) × IsRead w read × (poll_nodes print_f read nodes got ≡ ok r)
  unfolding live_nodes poll_nodes
  live_nodes-poll_nodes [] got r s s1 ordered h = (λ k. w.read [], λ q. ([], refl), cc)
  live_nodes-poll_nodes ((k, d) ∷ nodes) got r s s1 (above, ordered) h =
      let ((next, s2), e, h1) = and_then-inv (live_node print_f to_json c g w d got s) _ h in
      let (calls, one) = live_node-poll_node d got next s s2 e in
      let v = w.read calls in
      let (read, given, rest) = live_nodes-poll_nodes nodes next r s2 s1 ordered h1 in
      (
        at k v read,
        at-IsRead w k calls read given,
        rw (at-here k v read, one) (poll_nodes-Above print_f k v read nodes next above ∙ rest),
      )

  pub live_round-poll_round :
      (s s1 : ClientState) (ms : List Message)
      → IsOrdered g.nodes
      → live_round print_f to_json c g w s ≡ ok (some (ms, s1))
      → (read : ℕ → Option (Value F)) × IsRead w read
        × (calls : Calls) × (poll_round print_f to_json c g (w.time calls) read ≡ ok ms)
  unfolding live_round poll_round
  live_round-poll_round s s1 ms ordered h =
      let ((got, s2), e, h1) =
        and_then-inv
          (live_nodes print_f to_json c g w g.nodes (record { members = []; kvs = [] }) s) _ h in
      let (read, given, nodes) =
        live_nodes-poll_nodes g.nodes (record { members = []; kvs = [] }) got s s2 ordered e in
      let (ms1, sent, e1) =
        bind-inv (poll_message print_f to_json c g (w.time s2.calls) got) _ h1 in
      (read, given, s2.calls, rw nodes (sent ∙ cc))
