-- ===== src/NodeId/Text.antt =====
-- Node ids as the configuration file writes them: what getUA_NodeID makes of "ns=N;i=I",
-- "ns=N;s=NAME" and of a name that holds a ';'.
use mathlib.Core.List.{append-nil, append_assoc}
use native.Mathlib.Numerals.{add-one}
use factory_thing.Base.{
  ℕ, suc, ◌-◌, ◌/◌, ltb, ◌≡◌, ◌≢◌, ◌<◌, ◌≤◌, refl, ◌∙◌, ap, false, some, List, [], ◌∷◌, ◌++◌, arith,
  ◌==◌, if◌then◌else◌, Bool-cases, inl, inr, length, ok, fault, out_of_range, ◌>>=◌,
}
use factory_thing.CString.Defs.{Bytes, lit, equal, decimal, decimal_fuel, atoi, is_digit}
use factory_thing.CString.Decimal.{AllDigits, decimal-AllDigits, atoi-decimal}
use factory_thing.NodeId.Defs.{
  UaNodeId, numeric_type, string_type, numeric, string, split_onto, split, last_item, scan,
  scan_pieces, get_ua_node_id, uint16_values, uint32_values,
}
use factory_thing.NodeId.Split.{Lacks, split_onto-append_delim, split_onto_single}

-- A decimal number holds no delimiter.
digits-Lacks : (d : ℕ) (s : Bytes) → is_digit d ≡ false → AllDigits s → Lacks d s
digits-Lacks d [] h k = tt
digits-Lacks d (c ∷ s) h (k, ks) = (ground arith, digits-Lacks d s h ks)

digits-ne-word : (s w : Bytes) (c : ℕ) → is_digit c ≡ false → AllDigits s → equal s (c ∷ w) ≡ false
unfolding equal
digits-ne-word [] w c h k = refl
digits-ne-word (x ∷ s) w c h (k, ks) = ground arith

append_cons-ne-nil : (a : Bytes) (c : ℕ) (b : Bytes) → a ++ (c ∷ b) ≢ []
append_cons-ne-nil [] c b e = cc
append_cons-ne-nil (x ∷ a) c b e = cc

decimal_fuel-ne-nil : (f n : ℕ) → decimal_fuel (suc f) n ≢ []
unfolding decimal_fuel
decimal_fuel-ne-nil f n = elim (Bool-cases (ltb n 10)) [
  | inl small ↦ rw small (λ e. cc)
  | inr large ↦ rw large (append_cons-ne-nil (decimal_fuel f (n / 10)) _ [])
]

decimal-ne-nil : (n : ℕ) → decimal n ≢ []
unfolding decimal
decimal-ne-nil n = rw add-one (decimal_fuel-ne-nil n n)

last_item_of_ne : (s : Bytes) → s ≢ [] → last_item s ≡ s ∷ []
last_item_of_ne [] h = absurd (h refl)
last_item_of_ne (c ∷ s) h = refl

-- "key=NUMBER" is two pieces.
split_field :
    (key s : Bytes)
    → Lacks b'=' key
    → AllDigits s
    → s ≢ []
    → split (key ++ (b'=' ∷ s)) b'=' ≡ key ∷ s ∷ []
split_field key s hk hs ne =
    split_onto-append_delim b'=' [] key s hk
    ∙ ap (◌∷◌ key)
        (split_onto_single b'=' [] s (digits-Lacks b'=' s refl hs) ∙ last_item_of_ne s ne)

-- The inner loop leaves a number alone.
abbrev IsNoWord : Bytes → Type 0
IsNoWord s =
    (equal s (lit "ns") ≡ false) × (equal s (lit "i") ≡ false) × (equal s (lit "s") ≡ false)

digits-IsNoWord : (s : Bytes) → AllDigits s → IsNoWord s
digits-IsNoWord s h = (
  digits-ne-word s (lit "s") b'n' refl h,
  digits-ne-word s [] b'i' refl h,
  digits-ne-word s [] b's' refl h,
)

-- The text up to the first delimiter.
pub before : ℕ → Bytes → Bytes
before d [] = []
before d (c ∷ s) = if c == d then [] else c ∷ before d s

split_onto-before :
    (d : ℕ) (cur s : Bytes)
    → cur ++ s ≢ []
    → (ps : List Bytes) × (split_onto d cur s ≡ (cur ++ before d s) ∷ ps)
unfolding split_onto before
split_onto-before d cur [] h = ([], rw append-nil (last_item_of_ne cur (rw append-nil at h)))
split_onto-before d cur (c ∷ s) h = elim (Bool-cases (c == d)) [
  | inl e ↦ (split_onto d [] s, rw (e, append-nil))
  | inr e ↦
      let (ps, q) =
        split_onto-before d (cur ++ (c ∷ [])) s (rw append_assoc (append_cons-ne-nil cur c s)) in
      (ps, rw (e, ← append_assoc cur (c ∷ []) (before d s)) q)
]

-- "ns=N;" and what follows.
abbrev pub ns_text : ℕ → Bytes → Bytes
ns_text ns s = (lit "ns=" ++ decimal ns) ++ (b';' ∷ s)

ns_part : (ns : ℕ) → split (lit "ns=" ++ decimal ns) b'=' ≡ lit "ns" ∷ decimal ns ∷ []
ns_part ns =
    split_field (lit "ns") (decimal ns) (refl, (refl, tt)) (decimal-AllDigits ns)
      (decimal-ne-nil ns)

split-ns_text :
    (ns : ℕ) (s : Bytes) → split (ns_text ns s) b';' ≡ (lit "ns=" ++ decimal ns) ∷ split s b';'
split-ns_text ns s =
    split_onto-append_delim b';' [] (lit "ns=" ++ decimal ns) s
      (refl, (refl, (refl, digits-Lacks b';' (decimal ns) refl (decimal-AllDigits ns))))

module _ (alloc : Bytes → Bytes) where
  scan-ns :
      (s : Bytes) (ua : UaNodeId)
      → IsNoWord s
      → scan alloc 2 0 (lit "ns" ∷ s ∷ []) ua
        ≡ ok (record ua { namespace_index = some (atoi uint16_values s) })
  unfolding scan equal
  scan-ns s ua (a, b, c) = rw (a, b, c)

  -- With three rounds or more the loop reads a third piece, which is not there.
  scan-ns_fault :
      (k : ℕ) (s : Bytes) (ua : UaNodeId)
      → IsNoWord s
      → scan alloc (suc (suc (suc k))) 0 (lit "ns" ∷ s ∷ []) ua ≡ fault out_of_range
  unfolding scan equal
  scan-ns_fault k s ua (a, b, c) = rw (a, b, c)

  scan-i :
      (s : Bytes) (ps : List Bytes) (ua : UaNodeId)
      → scan alloc 2 0 (lit "i" ∷ s ∷ ps) ua
        ≡ ok (record ua {
          identifier_type = some numeric_type;
          identifier = some (numeric (atoi uint32_values s));
        })
  unfolding scan equal
  scan-i s ps ua = refl

  scan-s :
      (s : Bytes) (ps : List Bytes) (ua : UaNodeId)
      → scan alloc 2 0 (lit "s" ∷ s ∷ ps) ua
        ≡ ok
            (record ua { identifier_type = some string_type; identifier = some (string (alloc s)) })
  unfolding scan equal
  scan-s s ps ua = refl

  -- A text "ns=N;" with one piece behind it: N is the namespace, and the piece is scanned next.
  get-ns_text :
      (ns : ℕ) (s : Bytes) (ua : UaNodeId)
      → ns < uint16_values
      → split s b';' ≡ s ∷ []
      → get_ua_node_id alloc (ns_text ns s) ua
        ≡ (scan alloc 2 0 (split s b'=') (record ua { namespace_index = some ns }) >>= ok)
  unfolding get_ua_node_id scan_pieces
  get-ns_text ns s ua h one =
      rw (split-ns_text ns s, one)
        (rw
          (
            ns_part ns,
            scan-ns (decimal ns) ua (digits-IsNoWord (decimal ns) (decimal-AllDigits ns)),
          )
          (rw (atoi-decimal uint16_values ns h (omega arith)) (rw one)))

  -- "ns=N;i=I" gives the numeric id I in namespace N, whatever the id held before, for every N of
  -- 16 bits and I of 32 bits.
  pub get_ua_node_id-numeric :
      (ns i : ℕ) (ua : UaNodeId)
      → ns < uint16_values
      → i < uint32_values
      → get_ua_node_id alloc (ns_text ns (lit "i=" ++ decimal i)) ua
        ≡ ok (record {
          namespace_index = some ns;
          identifier_type = some numeric_type;
          identifier = some (numeric i);
        })
  get_ua_node_id-numeric ns i ua h k =
      get-ns_text ns (lit "i=" ++ decimal i) ua h (
        split_onto_single b';' [] (lit "i=" ++ decimal i)
          (refl, (refl, digits-Lacks b';' (decimal i) refl (decimal-AllDigits i))))
      ∙ rw (split_field (lit "i") (decimal i) (refl, tt) (decimal-AllDigits i) (decimal-ne-nil i))
          (rw (scan-i, atoi-decimal uint32_values i k (omega arith)))

  -- "ns=N;s=NAME", where NAME is not empty and has no ';', gives a string id in namespace N. The
  -- string is a copy of NAME up to its first '=': what follows an '=' in the name is lost.
  pub get_ua_node_id-string :
      (ns : ℕ) (name : Bytes) (ua : UaNodeId)
      → ns < uint16_values
      → name ≢ []
      → Lacks b';' name
      → get_ua_node_id alloc (ns_text ns (lit "s=" ++ name)) ua
        ≡ ok (record {
          namespace_index = some ns;
          identifier_type = some string_type;
          identifier = some (string (alloc (before b'=' name)));
        })
  get_ua_node_id-string ns name ua h ne lacks =
      let (ps, e) = split_onto-before b'=' [] name ne in
      get-ns_text ns (lit "s=" ++ name) ua h
        (split_onto_single b';' [] (lit "s=" ++ name) (refl, (refl, lacks)))
      ∙ rw (split_onto-append_delim b'=' [] (lit "s") name (refl, tt)) (rw (e, scan-s))

  -- Behind "ns=N;" there may be one piece at most. With two or more the inner loop, whose bound is
  -- the number of all pieces, reads past the two parts of "ns=N".
  pub get_ua_node_id_fault :
      (ns : ℕ) (s : Bytes) (ua : UaNodeId)
      → 2 ≤ length (split s b';')
      → get_ua_node_id alloc (ns_text ns s) ua ≡ fault out_of_range
  unfolding get_ua_node_id scan_pieces
  get_ua_node_id_fault ns s ua h =
      let k = length (split s b';') - 2 in
      let e : length (split s b';') ≡ suc (suc k) = omega arith in
      rw (split-ns_text ns s) (
        rw e (
          rw (
            ns_part ns,
            scan-ns_fault k (decimal ns) ua (digits-IsNoWord (decimal ns) (decimal-AllDigits ns)),
          )))
