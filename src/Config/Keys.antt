-- ===== src/Config/Keys.antt =====
-- Which objects `make_group` takes whole: the keys that it knows, in full or abbreviated.
use factory_thing.Base.{
  ◌≡◌, ◌↔◌, ◌⊎◌, inl, inr, Bool, true, false, List, [], ◌∷◌, ◌||◌, arith, Run, fault, ok,
  Bool-cases, ◌>>=◌,
}
use factory_thing.CString.Defs.{Bytes, lit, matches}
use factory_thing.CString.Prefix.{IsFront, matches_iff}
use factory_thing.Int.{ℤ, pos}
use factory_thing.Json.{JsonLib}
use factory_thing.Config.Defs.{Group}
use factory_thing.Config.Group.{Step, next, stop, group_field, after_step, group_fields, make_group}

-- The key is the front of a listed word.
abbrev pub FrontOfSome : Bytes → List Bytes → Type 0
FrontOfSome key [] = ⊥
FrontOfSome key (w ∷ ws) = IsFront key w ⊎ FrontOfSome key ws

abbrev pub group_words : List Bytes
group_words =
    lit "name"
    ∷ lit "method"
    ∷ lit "intervalUSec"
    ∷ lit "topic"
    ∷ lit "format"
    ∷ lit "mqtt"
    ∷ lit "amqp"
    ∷ lit "tcp"
    ∷ lit "enable"
    ∷ lit "nodes"
    ∷ []

any_match : Bytes → List Bytes → Bool
any_match key [] = false
any_match key (w ∷ ws) = matches key w || any_match key ws

any_match_sound : (key : Bytes) (ws : List Bytes) → any_match key ws ≡ true → FrontOfSome key ws
unfolding any_match
any_match_sound key [] h = cc
any_match_sound key (w ∷ ws) h = elim (Bool-cases (matches key w)) [
  | inl e ↦ inl ((matches_iff key w).0 e)
  | inr e ↦ inr (any_match_sound key ws (ground arith))
]

any_match_complete : (key : Bytes) (ws : List Bytes) → FrontOfSome key ws → any_match key ws ≡ true
unfolding any_match
any_match_complete key [] h = elim h [ ]
any_match_complete key (w ∷ ws) (inl f) = rw ((matches_iff key w).1 f)
any_match_complete key (w ∷ ws) (inr f) = ground (arith, any_match_complete key ws f)

-- Every key is known.
abbrev pub AllKnown {ℓ} : {A : Type ℓ} → List (Bytes × A) → Type 0
AllKnown [] = Unit
AllKnown ((key, _) ∷ es) = FrontOfSome key group_words × AllKnown es

abbrev StepAgrees : Run Step → Bool → Type 0
StepAgrees (ok (next g)) known = known ≡ true
StepAgrees (ok (stop g)) known = known ≡ false
StepAgrees (fault e) known = Unit

module _ (J : JsonLib) where
  group_field-StepAgrees :
      (g : Group) (key : Bytes) (v : J.Ptr)
      → StepAgrees (group_field J g key v) (any_match key group_words)
  unfolding group_field any_match
  group_field-StepAgrees g key v = ground arith

  status_after :
      {P : Type 0} (key : Bytes) (r : Run Step) (rounds : Group → Run (ℤ × Group)) {status : ℤ}
      {g' : Group}
      → ((g s : Group) (t : ℤ) → rounds g ≡ ok (t, s) → (t ≡ pos 0) ↔ P)
      → StepAgrees r (any_match key group_words)
      → (r >>= after_step rounds) ≡ ok (status, g')
      → (status ≡ pos 0) ↔ (FrontOfSome key group_words × P)
  status_after key (ok (next g)) rounds {status} {g'} later agrees h =
      let rest = later g g' status h in
      (λ e. (any_match_sound key group_words agrees, rest.0 e), λ (_, p). rest.1 p)
  status_after key (ok (stop g)) rounds later agrees h =
      (λ e. cc, λ (f, _). absurd (ground (arith, any_match_complete key group_words f)))
  status_after key (fault e) rounds later agrees h = cc

  group_fields-status :
      (es : List (Bytes × J.Ptr)) (g g' : Group) (status : ℤ)
      → group_fields J g es ≡ ok (status, g')
      → (status ≡ pos 0) ↔ AllKnown es
  unfolding group_fields
  group_fields-status [] g g' status h = (λ _. tt, λ _. ground arith)
  group_fields-status ((key, v) ∷ es) g g' status h =
      status_after key (group_field J g key v) (λ g1. group_fields J g1 es)
        (λ g1 s t. group_fields-status es g1 s t) (group_field-StepAgrees g key v) h

  -- When `make_group` returns, its status is 0 exactly if every key of the object is the front of
  -- one of the ten words that it knows.
  make_group-status :
      (r : J.Ptr) (g : Group) {g' : Group} {status : ℤ}
      → make_group J r g ≡ ok (status, g')
      → (status ≡ pos 0) ↔ AllKnown (J.entries r)
  unfolding make_group
  make_group-status r g {g'} {status} h = group_fields-status (J.entries r) g g' status h
