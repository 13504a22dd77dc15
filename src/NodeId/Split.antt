-- ===== src/NodeId/Split.antt =====
-- The pieces of a text: `split` against joining.
use mathlib.Core.List.{append_assoc, append-nil}
use factory_thing.Base.{
  ℕ, ◌≡◌, ◌≢◌, ◌⊎◌, inl, inr, refl, sym, ◌∙◌, ap, false, List, [], ◌∷◌, ◌++◌, arith, ◌==◌,
  Bool-cases, ==_iff, All,
}
use factory_thing.CString.Defs.{Bytes}
use factory_thing.NodeId.Defs.{last_item, split_onto, split}

-- The delimiter does not occur.
abbrev pub Lacks : ℕ → Bytes → Type 0
Lacks d s = All (λ c. (c == d) ≡ false) s

pub Lacks-append : (d : ℕ) (a b : Bytes) → Lacks d a → Lacks d b → Lacks d (a ++ b)
Lacks-append d [] b h k = k
Lacks-append d (x ∷ a) b h k = (h.0, Lacks-append d a b h.1 k)

-- Up to the first delimiter the text is one piece.
pub split_onto-append_delim :
    (d : ℕ) (cur a s : Bytes)
    → Lacks d a
    → split_onto d cur (a ++ (d ∷ s)) ≡ (cur ++ a) ∷ split_onto d [] s
unfolding split_onto
split_onto-append_delim d cur [] s h = rw append-nil (ground arith)
split_onto-append_delim d cur (c ∷ a) s (h, hs) =
    rw h (split_onto-append_delim d (cur ++ (c ∷ [])) a s hs ∙ rw append_assoc)

-- With no delimiter at all it is one piece, unless it is empty.
pub split_onto_single :
    (d : ℕ) (cur a : Bytes) → Lacks d a → split_onto d cur a ≡ last_item (cur ++ a)
unfolding split_onto
split_onto_single d cur [] h = rw append-nil
split_onto_single d cur (c ∷ a) (h, hs) =
    rw h (split_onto_single d (cur ++ (c ∷ [])) a hs ∙ rw append_assoc)

-- Each piece, with the delimiter behind it.
abbrev pub ended : ℕ → List Bytes → Bytes
ended d [] = []
ended d (p ∷ ps) = p ++ (d ∷ ended d ps)

abbrev pub LastNonempty : List Bytes → Type 0
LastNonempty [] = ⊥
LastNonempty (p ∷ []) = p ≢ []
LastNonempty (p ∷ q ∷ ps) = LastNonempty (q ∷ ps)

-- What the loop of getline promises: pieces without the delimiter that, each ended by one, make up
-- the text, or the text and one delimiter more where the last piece is not empty.
pub record IsSplit (d : ℕ) (s : Bytes) (ps : List Bytes) : Type 0 where
  pub pieces : All (Lacks d) ps
  pub covers : (ended d ps ≡ s) ⊎ ((ended d ps ≡ s ++ (d ∷ [])) × LastNonempty ps)

last_item-IsSplit : (d : ℕ) (cur : Bytes) → Lacks d cur → IsSplit d cur (last_item cur)
last_item-IsSplit d [] h = record { pieces = tt; covers = inl refl }
last_item-IsSplit d (c ∷ cur) h = record { pieces = (h, tt); covers = inr (refl, λ e. cc) }

LastNonempty-cons : (p : Bytes) (ps : List Bytes) → LastNonempty ps → LastNonempty (p ∷ ps)
LastNonempty-cons p [] h = elim h [ ]
LastNonempty-cons p (q ∷ ps) h = h

IsSplit-cons :
    (d : ℕ) (cur s : Bytes) (ps : List Bytes)
    → Lacks d cur
    → IsSplit d s ps
    → IsSplit d (cur ++ (d ∷ s)) (cur ∷ ps)
IsSplit-cons d cur s ps h r = record {
  pieces = (h, r.pieces);
  covers = elim r.covers [
    | inl e ↦ inl (ap (λ t. cur ++ (d ∷ t)) e)
    | inr (e, l) ↦ inr (
      ap (λ t. cur ++ (d ∷ t)) e ∙ sym (append_assoc cur (d ∷ s) (d ∷ [])),
      LastNonempty-cons cur ps l,
    )
  ];
}

split_onto-IsSplit :
    (d : ℕ) (cur s : Bytes) → Lacks d cur → IsSplit d (cur ++ s) (split_onto d cur s)
unfolding split_onto
split_onto-IsSplit d cur [] h = rw append-nil (last_item-IsSplit d cur h)
split_onto-IsSplit d cur (c ∷ s) h = elim (Bool-cases (c == d)) [
  | inl e ↦ rw (e, (==_iff c d).0 e) (IsSplit-cons d cur s _ h (split_onto-IsSplit d [] s tt))
  | inr e ↦
      rw (e, ← append_assoc cur (c ∷ []) s)
        (split_onto-IsSplit d (cur ++ (c ∷ [])) s (Lacks-append d cur (c ∷ []) h (e, tt)))
]

-- `split` of any text meets the promise of the loop: no piece holds the delimiter, and the pieces
-- with a delimiter behind each are the text, or the text with one delimiter more, in which case the
-- last piece is not empty.
pub split-IsSplit : (s : Bytes) (d : ℕ) → IsSplit d s (split s d)
split-IsSplit s d = split_onto-IsSplit d [] s tt
