-- ===== src/Config/Modes.antt =====
-- `getMonitorMode` and `getPayloadFormat`.
use factory_thing.Base.{
  ℕ, ◌≡◌, ◌≢◌, ◌↔◌, refl, true, [], ◌∷◌, arith, if◌then◌else◌, Bool-cases, inl, inr,
}
use factory_thing.CString.Defs.{Bytes, lit, matches, strncmp_is_zero}
use factory_thing.CString.Prefix.{IsFront, matches_iff}

pub data MonitorMode : Type 0 where
  event poll : MonitorMode

pub data PayloadFormat : Type 0 where
  json key_val : PayloadFormat

unfoldable pub get_monitor_mode : Bytes → MonitorMode
get_monitor_mode method =
    if matches method (lit "event")
    then event
    else if matches method (lit "poll")
    then poll
    else poll

unfoldable pub get_payload_format : Bytes → PayloadFormat
get_payload_format format =
    if matches format (lit "json")
    then json
    else if matches format (lit "kv")
    then key_val
    else json

get_monitor_mode_iff : (m : Bytes) → (get_monitor_mode m ≡ event) ↔ IsFront m (lit "event")
unfolding get_monitor_mode
get_monitor_mode_iff m = elim (Bool-cases (matches m (lit "event"))) [
  | inl e ↦ rw e (λ _. (matches_iff m _).0 e, λ _. refl)
  | inr e ↦
      rw e (λ h. ground arith, λ h. absurd (ground (arith, (matches_iff m (lit "event")).1 h)))
]

format_test :
    (c : ℕ) (f : Bytes)
    → (get_payload_format (c ∷ f) ≡ key_val) ↔ (matches (c ∷ f) (lit "kv") ≡ true)
unfolding get_payload_format strncmp_is_zero
format_test c f = (λ h. ground arith, λ h. ground arith)

get_payload_format_iff :
    (f : Bytes) → (get_payload_format f ≡ key_val) ↔ ((f ≢ []) × IsFront f (lit "kv"))
unfolding get_payload_format strncmp_is_zero
get_payload_format_iff [] = (λ h. cc, λ h. absurd (h.0 refl))
get_payload_format_iff (c ∷ f) = (
  λ h. (λ e. cc, (matches_iff (c ∷ f) (lit "kv")).0 ((format_test c f).0 h)),
  λ (_, h). (format_test c f).1 ((matches_iff (c ∷ f) (lit "kv")).1 h),
)

-- A method stands for events exactly when it is the front of "event", the empty text included;
-- every other method stands for polling. A format stands for key=value lines exactly when it is a
-- non-empty front of "kv"; every other format stands for JSON.
modes_lem :
    (method format : Bytes)
    → ((get_monitor_mode method ≡ event) ↔ IsFront method (lit "event"))
      × ((get_payload_format format ≡ key_val) ↔ ((format ≢ []) × IsFront format (lit "kv")))
modes_lem method format = (get_monitor_mode_iff method, get_payload_format_iff format)
