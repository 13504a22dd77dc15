-- ===== src/Config/View.antt =====
-- What the map of groups holds once "node-map" is read.
use factory_thing.Base.{
  ℕ, zero, suc, ◌+◌, ◌<◌, ◌≤◌, ◌≡◌, ◌≢◌, ◌∙◌, ◌⊎◌, inl, inr, refl, ap, sym, subst, Bool-cases,
  Option, none, some, [], arith, ◌==◌, if◌then◌else◌, ok,
}
use factory_thing.CString.Defs.{Bytes, lit}
use factory_thing.Int.{ℤ}
use factory_thing.Json.{JsonType, object_type, JsonLib}
use factory_thing.Config.Defs.{Group, unset_group, Map}
use factory_thing.Config.Maps.{IsOrdered, lookup, held, insert-IsOrdered, lookup-insert}
use factory_thing.Config.Group.{make_group}
use factory_thing.Config.Load.{
  Outcome, go, run, load_group, load_groups, load_map, load_device, load_server, load_document,
  show_groups, section, System, Loaded,
}
use factory_thing.Config.Ordered.{make_group-IsOrdered}
use factory_thing.Config.Bounds.{Outcome-inv, go-injective, run-eq-go}

first_or_later : (i q : ℕ) → i ≤ q → (i ≡ q) ⊎ (i + 1 ≤ q)
first_or_later i q le = elim (Bool-cases (i == q)) [
  | inl e ↦ inl (ground arith)
  | inr e ↦ inr (ground arith)
]

module _ (J : JsonLib) (os : System) where
  -- What is held for an element of the array: of an object the group that `make_group` makes, whose
  -- nodes are in the order of their keys, and nothing otherwise.
  abbrev pub Holds : J.Ptr → Option Group → Type 0
  Holds n o =
      ((J.get_type n ≡ object_type)
        × ((status : ℤ) × (g : Group) × (make_group J n unset_group ≡ ok (status, g))
            × (o ≡ some g)
            × IsOrdered g.nodes))
      ⊎ ((J.get_type n ≢ object_type) × (o ≡ none))

  -- One element, at a key that the map does not have.
  load_group-Holds :
      (i : ℕ) (n : J.Ptr) (m : Map Group) {m1 : Map Group}
      → IsOrdered m
      → lookup m i ≡ none
      → load_group J os i n m ≡ go m1
      → IsOrdered m1 × Holds n (lookup m1 i) × ((q : ℕ) → q ≢ i → lookup m1 q ≡ lookup m q)
  unfolding load_group
  load_group-Holds i n m {m1} ordered new h = by_type (J.get_type n) refl
    where
      by_type :
          (t : JsonType)
          → J.get_type n ≡ t
          → IsOrdered m1 × Holds n (lookup m1 i) × ((q : ℕ) → q ≢ i → lookup m1 q ≡ lookup m q)
      by_type object_type is =
          let ((status, g), e, h1) =
            Outcome-inv (run (make_group J n unset_group)) _ (rw (is, load_group) at h) in
          let made = run-eq-go (make_group J n unset_group) e in
          let inserted = go-injective h1 in
          let reads : (q : ℕ) → lookup m1 q ≡ (if i == q then some g else lookup m q) = λ q.
            ap (λ m2. lookup m2 q) (sym inserted)
            ∙ (lookup-insert i g m q ordered
                ∙ ap (λ o. if i == q then some (held o g) else lookup m q) new) in
          (
            subst IsOrdered inserted (insert-IsOrdered i g m ordered),
            inl (is, (status, g, made, reads i ∙ ground arith, make_group-IsOrdered J n made)),
            λ q other. reads q ∙ ground arith,
          )
      by_type t is =
          let same = go-injective (rw (is, load_group) at h) in
          (
            subst IsOrdered same ordered,
            inr (λ eq. cc, ap (λ m2. lookup m2 i) (sym same) ∙ new),
            λ q other. ap (λ m2. lookup m2 q) (sym same),
          )

  load_groups-Holds :
      (o : J.Ptr) (rounds i : ℕ) (m : Map Group) {m1 : Map Group}
      → IsOrdered m
      → ((q : ℕ) → i ≤ q → lookup m q ≡ none)
      → load_groups J os o rounds i m ≡ go m1
      → IsOrdered m1
        × ((q : ℕ) → i ≤ q → q < i + rounds → Holds (J.array_get_idx o q) (lookup m1 q))
        × ((q : ℕ) → q < i → lookup m1 q ≡ lookup m q)
        × ((q : ℕ) → i + rounds ≤ q → lookup m1 q ≡ none)
  unfolding load_groups
  load_groups-Holds o zero i m ordered new h =
      let same = go-injective h in
      (
        subst IsOrdered same ordered,
        λ q le lt. absurd (omega arith),
        λ q lt. ap (λ m2. lookup m2 q) (sym same),
        λ q le. ap (λ m2. lookup m2 q) (sym same) ∙ new q (omega arith),
      )
  load_groups-Holds o (suc rounds) i m {m1} ordered new h =
      let (m2, e, h1) = Outcome-inv (load_group J os i (J.array_get_idx o i) m) _ h in
      let (ordered2, here, others) =
        load_group-Holds i (J.array_get_idx o i) m ordered (new i (omega arith)) e in
      let (ordered1, later, before, behind) =
        load_groups-Holds o rounds (i + 1) m2 ordered2
          (λ q le. others q (λ eq. omega arith) ∙ new q (omega arith)) h1 in
      (
        ordered1,
        λ q le lt. elim (first_or_later i q le) [
          | inl eq ↦
              subst (λ k. Holds (J.array_get_idx o k) (lookup m1 k)) eq
                (subst (Holds (J.array_get_idx o i)) (sym (before i (omega arith))) here)
          | inr more ↦ later q more (omega arith)
        ],
        λ q lt. before q (omega arith) ∙ others q (λ eq. omega arith),
        λ q le. behind q (omega arith),
      )

  -- What the map is of an array `o`.
  abbrev pub IsView : J.Ptr → Map Group → Type 0
  IsView o m =
      IsOrdered m
      × ((q : ℕ) → q < J.array_length o → Holds (J.array_get_idx o q) (lookup m q))
      × ((q : ℕ) → J.array_length o ≤ q → lookup m q ≡ none)

  load_map-IsView : (o : J.Ptr) {m : Map Group} → load_map J os o [] ≡ go m → IsView o m
  unfolding load_map
  load_map-IsView o h =
      let (ordered, here, _, behind) =
        load_groups-Holds o (J.array_length o) 0 [] _ (λ q le. refl) h in
      (ordered, λ q lt. here q (omega arith) (omega arith), λ q le. behind q (omega arith))

  pub section_there :
      {A : Type 0} (doc o : J.Ptr) (key : Bytes) (part : J.Ptr → A → Outcome A) (a : A)
      → J.object_get_ex doc key ≡ some o
      → section J os doc key part a ≡ part o a
  section_there doc o key part a there = rw (there, section) refl

  -- Where a document with the member "node-map" is loaded into a program without groups, the map is
  -- in the order of its keys. At each key below the number of the elements it holds what make_group
  -- makes of the element, if that is an object, and otherwise nothing; it has no other key. The
  -- nodes of each group are in the order of their keys.
  pub load_document-IsView :
      (doc o : J.Ptr) (l l1 : Loaded)
      → J.object_get_ex doc (lit "node-map") ≡ some o
      → l.groups ≡ []
      → load_document J os doc l ≡ go l1
      → IsView o l1.groups
  unfolding load_document
  load_document-IsView doc o l l1 there empty h =
      let c = l.configuration in
      let (c1, e1, h1) =
        Outcome-inv (section J os doc (lit "device-configuration") (load_device J os) c) _ h in
      let (c2, e2, h2) =
        Outcome-inv (section J os doc (lit "server-configuration") (load_server J os) c1) _ h1 in
      let (m, e3, h3) =
        Outcome-inv (section J os doc (lit "node-map") (load_map J os) l.groups) _ h2 in
      let (u, e4, h4) = Outcome-inv (show_groups J os m) _ h3 in
      subst (λ x. IsView o x.groups) (go-injective h4)
        (load_map-IsView o (
          ap (load_map J os o) (sym empty)
          ∙ (sym (section_there doc o _ (load_map J os) l.groups there) ∙ e3)))
