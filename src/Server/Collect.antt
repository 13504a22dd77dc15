-- ===== src/Server/Collect.antt =====
-- What stands of the nodes that `main` adds, but for those of the loop over the types.
use factory_thing.Base.{
  ℕ, zero, suc, ◌+◌, ◌≡◌, refl, ap, ◌∙◌, ◌||◌, ◌==◌, List, [], ◌∷◌, ◌++◌, Bool-cases, inl, inr,
}
use factory_thing.CString.Defs.{Bytes}
use factory_thing.Server.Defs.{AddNode, ServerId, variable, add_node, type_nodes}

module _ {ℓ} {X : Type ℓ} (of : AddNode → List X) where
  abbrev pub collect : List AddNode → List X
  collect [] = []
  collect (n ∷ ns) = of n ++ collect ns

  module _
      (skips : (id parent : ServerId) (name : Bytes) → of (add_node variable id parent name) ≡ [])
      (type_name : ℕ → Bytes) (variant diagnosticinfo : ℕ) where
    skip :
        (id parent : ServerId) (name : Bytes) {xs ys : List X}
        → xs ≡ ys
        → of (add_node variable id parent name) ++ xs ≡ ys
    skip id parent name {xs} h = ap (λ skipped. skipped ++ xs) (skips id parent name) ∙ h

    pub collect-type_nodes :
        (rounds type id : ℕ) (rest : List AddNode)
        → collect (type_nodes type_name variant diagnosticinfo rounds type id ++ rest)
          ≡ collect rest
    unfolding type_nodes
    collect-type_nodes zero type id rest = refl
    collect-type_nodes (suc rounds) type id rest =
        elim (Bool-cases (type == variant || type == diagnosticinfo)) [
          | inl e ↦ rw e (collect-type_nodes rounds (type + 1) id rest)
          | inr e ↦ rw e (
              skip _ _ _
                (skip _ _ _ (skip _ _ _ (collect-type_nodes rounds (type + 1) (id + 3) rest))))
        ]
