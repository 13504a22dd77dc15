-- ===== src/Mqtt/Finishes.antt =====
-- The thread of `mqtt_main` comes to its end beside the others.
use factory_thing.Base.{
  ℕ, suc, ◌+◌, ◌-◌, ◌*◌, ◌<◌, ◌≤◌, ◌≡◌, ◌⊎◌, refl, Bool, true, false, List, [], ◌∷◌, arith, length,
  leb, if◌then◌else◌, Bool-cases, inl, inr, ◌&&◌,
}
use factory_thing.CString.Defs.{Bytes}
use factory_thing.Config.Defs.{Configuration}
use factory_thing.Net.Defs.{Env, transport_send_packet_buffer, close_socket, History}
use factory_thing.Net.Growth.{StopsBy, transport_open-lt}
use factory_thing.Mqtt.Defs.{Paho, MqttState, mqtt_publish}
use factory_thing.Mqtt.Threads.{
  Position, opening, assigning, greeting, reading, testing, waiting, leaving, closing, finished,
  cancelled, Threads, Actor, main, publisher, canceller, advance, calls_next, up_to_point, move,
  run,
}

-- How many steps the thread of `mqtt_main` makes.
abbrev pub mains : List Actor → ℕ
mains [] = 0
mains (main ∷ schedule) = suc (mains schedule)
mains (publisher topic value ∷ schedule) = mains schedule
mains (canceller ∷ schedule) = mains schedule

-- Where a signal comes by n calls: the steps that may be left from a position. As long as it has not
-- come, an opening is paid for by the calls that it makes.
abbrev rank : ℕ → History → Position → ℕ
rank n h opening = if leb n (length h) then 8 else 1
rank n h (assigning fd) = 7
rank n h greeting = 6
rank n h reading = 5
rank n h (testing rc) = 4
rank n h waiting = 3
rank n h leaving = 2
rank n h closing = 1
rank n h finished = 0
rank n h cancelled = 0

abbrev measure : ℕ → Position × MqttState → ℕ
measure n (p, s) = 10 * (n - length s.history) + rank n s.history p

measure_bound :
    (n : ℕ) (p : Position) (s : MqttState) → measure n (p, s) ≤ 10 * (n - length s.history) + 8
measure_bound n p s = ground arith

-- The thread has returned, or has been cancelled.
abbrev pub is_over : Position → Bool
is_over finished = true
is_over cancelled = true
is_over _ = false

-- More calls do not raise it.
measure_grows :
    (n : ℕ) (p : Position) (s s1 : MqttState)
    → length s.history ≤ length s1.history
    → measure n (p, s1) ≤ measure n (p, s)
measure_grows n p s s1 h = ground arith

module _ (env : Env) (paho : Paho) (c : Configuration) (n : ℕ) (stops : StopsBy env n) where
  advance-measure :
      (p : Position) (s : MqttState)
      → (measure n (advance env paho c p s) < measure n (p, s)) ⊎ (is_over p ≡ true)
  unfolding advance transport_send_packet_buffer close_socket
  advance-measure opening s =
      inl (ground (arith, transport_open-lt env c.mqtt_brocker_ip c.mqtt_brocker_port s.history))
  advance-measure (assigning fd) s = inl (ground arith)
  advance-measure greeting s = inl (ground arith)
  advance-measure reading s = inl (ground arith)
  advance-measure (testing rc) s = inl (ground (arith, stops s.history))
  advance-measure waiting s = inl (ground (arith, stops s.history))
  advance-measure leaving s = inl (ground arith)
  advance-measure closing s = inl (ground arith)
  advance-measure finished s = inr refl
  advance-measure cancelled s = inr refl

  abbrev at : Threads → Position × MqttState
  at t = (t.position, t.shared)

  cancelled_measure :
      (p : Position) (s : MqttState)
      → calls_next env paho c p s ≡ true
      → measure n (cancelled, up_to_point env paho c p s) < measure n (p, s)
  cancelled_measure p s h = ground arith

  main_measure :
      (t : Threads)
      → (measure n (at (move env paho c main t)) < measure n (at t)) ⊎ (is_over t.position ≡ true)
  unfolding move
  main_measure t = elim (Bool-cases (t.asked && calls_next env paho c t.position t.shared)) [
    | inl stop ↦ rw stop (inl (cancelled_measure t.position t.shared (ground arith)))
    | inr on ↦ rw on (advance-measure t.position t.shared)
  ]

  publish_measure :
      (topic value : Bytes) (t : Threads)
      → measure n (at (move env paho c (publisher topic value) t)) ≤ measure n (at t)
  unfolding move mqtt_publish transport_send_packet_buffer
  publish_measure topic value t =
      measure_grows n t.position t.shared (move env paho c (publisher topic value) t).shared
        (omega arith)

  over_stays :
      (a : Actor) (t : Threads)
      → is_over t.position ≡ true
      → is_over (move env paho c a t).position ≡ true
  unfolding move advance
  over_stays main t over = by_position t.position over
    where
      by_position :
          (p : Position)
          → is_over p ≡ true
          → is_over (move env paho c main (record t { position = p })).position ≡ true
      by_position finished over = ground arith
      by_position cancelled over = ground arith
      by_position p over = cc
  over_stays (publisher topic value) t over = over
  over_stays canceller t over = over

  run_stays :
      (schedule : List Actor) (t : Threads)
      → is_over t.position ≡ true
      → is_over (run env paho c schedule t).position ≡ true
  unfolding run
  run_stays [] t over = over
  run_stays (a ∷ schedule) t over = run_stays schedule (move env paho c a t) (over_stays a t over)

  measured_is_over : (p : Position) (s : MqttState) → measure n (p, s) ≤ 0 → is_over p ≡ true
  measured_is_over p s le = ground arith

  measured_finishes :
      (schedule : List Actor) (t : Threads)
      → measure n (at t) ≤ mains schedule
      → is_over (run env paho c schedule t).position ≡ true
  unfolding run
  measured_finishes [] t le = measured_is_over t.position t.shared le
  measured_finishes (main ∷ schedule) t le = elim (main_measure t) [
    | inl less ↦ measured_finishes schedule (move env paho c main t) (omega (arith, less))
    | inr over ↦ run_stays (main ∷ schedule) t over
  ]
  measured_finishes (publisher topic value ∷ schedule) t le =
      measured_finishes schedule (move env paho c (publisher topic value) t)
        (omega (arith, publish_measure topic value t))
  measured_finishes (canceller ∷ schedule) t le =
      measured_finishes schedule (move env paho c canceller t) le

-- Where a signal comes by n calls, of whatever thread, the thread of `mqtt_main` is over within 10
-- steps of its own for each of the calls that are left, and 8 more, whichever threads publish or
-- cancel it in between, and in whatever order: it has returned, or it has been cancelled.
pub run_finishes :
    (env : Env) (paho : Paho) (c : Configuration) (n : ℕ) (schedule : List Actor) (t : Threads)
    → StopsBy env n
    → 10 * (n - length t.shared.history) + 8 ≤ mains schedule
    → is_over (run env paho c schedule t).position ≡ true
run_finishes env paho c n schedule t stops enough =
    measured_finishes env paho c n stops schedule t
      (omega (arith, measure_bound n t.position t.shared))
