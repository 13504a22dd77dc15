-- ===== src/Net/Added.antt =====
-- What an opening adds to the calls.
use mathlib.Core.List.{append_assoc}
use factory_thing.Base.{◌≡◌, ◌∙◌, refl, sym, ap, List, [], ◌∷◌, ◌++◌, All, Bool-cases, inl, inr}
use factory_thing.CString.Defs.{Bytes}
use factory_thing.Int.{ℤ, is_minus_one, is_zero}
use factory_thing.Net.Defs.{
  SockOpt, Call, socket, setsockopt, connect, History, Env, Resolved, unresolved, resolved, Address,
  set_options, finish, connect_to, htons, invalid_socket, prefer_inet, family_rc, getaddrinfo,
  skip_bracket, open_resolved, open_socket, transport_open, tcp_open,
}

-- The calls of an opening.
abbrev pub IsOpening : Call → Type 0
IsOpening (getaddrinfo name) = Unit
IsOpening (socket f) = Unit
IsOpening (connect fd a port) = Unit
IsOpening (setsockopt fd o) = Unit
IsOpening _ = ⊥

-- Only such calls are added.
abbrev pub Adds : History → History → Type 0
Adds h h1 = (calls : List Call) × (h1 ≡ calls ++ h) × All IsOpening calls

Adds-none : (h : History) → Adds h h
Adds-none h = ([], refl, _)

-- What no call of an opening changes is the same after one.
pub Adds-keeps {ℓ} :
    {X : Type ℓ} (f : History → X)
    → ((call : Call) (h : History) → IsOpening call → f (call ∷ h) ≡ f h)
    → (h h1 : History) → Adds h h1
    → f h1 ≡ f h
Adds-keeps f keeps h h1 (calls, e, all) = ap f e ∙ added calls all
  where
    added : (calls : List Call) → All IsOpening calls → f (calls ++ h) ≡ f h
    added [] all = refl
    added (call ∷ calls) (one, all) = keeps call (calls ++ h) one ∙ added calls all

-- A call before others.
Adds-before : (call : Call) (h h1 : History) → IsOpening call → Adds (call ∷ h) h1 → Adds h h1
Adds-before call h h1 one (calls, e, all) =
    (calls ++ (call ∷ []), e ∙ sym (append_assoc calls (call ∷ []) h), All-snoc calls all)
  where
    All-snoc : (calls : List Call) → All IsOpening calls → All IsOpening (calls ++ (call ∷ []))
    All-snoc [] all = (one, _)
    All-snoc (x ∷ calls) (a, all) = (a, All-snoc calls all)

set_options-Adds :
    (options : List SockOpt) (fd : ℤ) (h : History) → Adds h (set_options fd options h)
set_options-Adds [] fd h = Adds-none h
set_options-Adds (o ∷ os) fd h =
    Adds-before (setsockopt fd o) h _ _ (set_options-Adds os fd (setsockopt fd o ∷ h))

module _ (env : Env) (options : List SockOpt) where
  finish-Adds : (fd rc : ℤ) (h : History) → Adds h (finish env options fd rc h).history
  finish-Adds fd rc h = elim (Bool-cases (is_minus_one fd)) [
    | inl bad ↦ rw bad (Adds-none h)
    | inr good ↦ rw good (set_options-Adds options fd h)
  ]

  connect_to-Adds :
      (a : Address) (port : ℤ) (h : History) → Adds h (connect_to env options a port h).history
  unfolding connect_to
  connect_to-Adds a port h =
      let h1 = socket a.family ∷ h in
      let fd = env.result h1 in
      let h2 = connect fd a (htons port) ∷ h1 in
      elim (Bool-cases (is_minus_one fd)) [
        | inl bad ↦ rw bad (Adds-before (socket a.family) h _ _ (Adds-none h1))
        | inr good ↦ rw good (
            Adds-before (socket a.family) h _ _
              (Adds-before (connect fd a (htons port)) h1 _ _ (set_options-Adds options fd h2)))
      ]

  open_resolved-Adds :
      (r : Resolved) (port : ℤ) (h : History) → Adds h (open_resolved env options r port h).history
  unfolding open_resolved
  open_resolved-Adds (unresolved rc) port h = finish-Adds invalid_socket rc h
  open_resolved-Adds (resolved first rest) port h =
      let a = prefer_inet first (first ∷ rest) in
      elim (Bool-cases (is_zero (family_rc a.family))) [
        | inl known ↦ rw known (connect_to-Adds a port h)
        | inr other ↦ rw other (finish-Adds invalid_socket (family_rc a.family) h)
      ]

  -- Behind the first call.
  pub open_socket-Adds :
      (addr : Bytes) (port : ℤ) (h : History)
      → Adds (getaddrinfo (skip_bracket addr) ∷ h) (open_socket env options addr port h).history
  open_socket-Adds addr port h =
      let h1 = getaddrinfo (skip_bracket addr) ∷ h in open_resolved-Adds (env.resolve h1) port h1

pub transport_open-Adds :
    (env : Env) (addr : Bytes) (port : ℤ) (h : History)
    → Adds h (transport_open env addr port h).history
unfolding transport_open
transport_open-Adds env addr port h =
    Adds-before (getaddrinfo (skip_bracket addr)) h _ _ (open_socket-Adds env _ addr port h)

pub tcp_open-Adds :
    (env : Env) (addr : Bytes) (port : ℤ) (h : History) → Adds h (tcp_open env addr port h).history
unfolding tcp_open
tcp_open-Adds env addr port h =
    Adds-before (getaddrinfo (skip_bracket addr)) h _ _ (open_socket-Adds env _ addr port h)

-- The calls that are not those of an opening, the last one first.
abbrev pub others : History → List Call
others [] = []
others (getaddrinfo name ∷ h) = others h
others (socket f ∷ h) = others h
others (connect fd a port ∷ h) = others h
others (setsockopt fd o ∷ h) = others h
others (call ∷ h) = call ∷ others h

others_one : (call : Call) (h : History) → IsOpening call → others (call ∷ h) ≡ others h
others_one (getaddrinfo name) h is = refl
others_one (socket f) h is = refl
others_one (connect fd a port) h is = refl
others_one (setsockopt fd o) h is = refl
others_one _ h is = absurd is

-- An opening adds none of them.
pub Adds-others : (h h1 : History) → Adds h h1 → others h1 ≡ others h
Adds-others = Adds-keeps others others_one
