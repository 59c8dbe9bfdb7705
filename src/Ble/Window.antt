-- ===== src/Ble/Window.antt =====
-- The advertising window of src/ble_log.c is always on its way to be closed.
use tag_testting.Common.{
  ℕ, ◌+◌, ◌≤◌, ◌≡◌, Bool, true, false, not, ◌||◌, Option, none, some, List, [], ◌∷◌, if◌then◌else◌,
  All, Option-cases, inl, inr, arith,
}
use tag_testting.Ble.{
  Ble, AdvStart, started, already, failed, adv_window_ms, ble_log_init, adv_continuous, adv_work_fn,
  adv_stop_work_fn, ble_log_adv_window, ble_log_adv_force, on_connected, on_disconnected, set_sleep,
}

-- The controller's answer: it documents `-EALREADY` while it advertises, and may refuse otherwise.
abbrev pub answer_of : Bool → Bool → AdvStart
answer_of advertising refuses = if advertising then already else if refuses then failed else started

-- What can happen at a clock reading: the calls, the links, and what the work queue runs. The
-- controller's stop succeeds, as it does while advertising runs.
pub data BleOp : Type 0 where
  window : BleOp
  force : Bool → BleOp
  sleep : Bool → BleOp
  link : Bool → Bool → BleOp
  unlink : BleOp
  work : Bool → BleOp
  stop : BleOp

unfoldable pub ble_step : Ble → ℕ × BleOp → Ble
unfolding ble_log_adv_window ble_log_adv_force set_sleep on_connected on_disconnected adv_work_fn
    adv_stop_work_fn
ble_step b (now, window) = ble_log_adv_window b
ble_step b (now, force on) = ble_log_adv_force b on now
ble_step b (now, sleep on) = set_sleep b on
ble_step b (now, link err still) = on_connected b err still
ble_step b (now, unlink) = on_disconnected b
ble_step b (now, work refuses) =
    if b.submitted then adv_work_fn b (answer_of b.advertising refuses) now else b
ble_step b (now, stop) = elim (b.stop_due) [ none ↦ b | some due ↦ adv_stop_work_fn b true ]

unfoldable pub ble_run : Ble → List (ℕ × BleOp) → Ble
ble_run b [] = b
ble_run b (e ∷ es) = ble_run (ble_step b e) es

abbrev is_due : Option ℕ → Bool
is_due none = false
is_due (some d) = true

abbrev due_or_now : Option ℕ → ℕ
due_or_now none = 0
due_or_now (some d) = d

-- Advertising is meant to last, or its end is scheduled, at most a window after the time `last`.
record Closing (b : Ble) (last : ℕ) : Type 0 where
  scheduled :
      (not b.advertising || b.conn || adv_continuous b || b.submitted || is_due b.stop_due) ≡ true
  in_time : due_or_now b.stop_due ≤ last + adv_window_ms

step-Closing :
    (b : Ble) (now last : ℕ) (op : BleOp)
    → now ≤ last
    → Closing b last
    → Closing (ble_step b (now, op)) last
unfolding ble_step adv_continuous
step-Closing b now last window h c = ground arith
step-Closing b now last (force on) h c = ground arith
step-Closing b now last (sleep on) h c = ground arith
step-Closing b now last (link err still) h c = ground arith
step-Closing b now last unlink h c = ground arith
step-Closing b now last (work refuses) h c = ground arith
step-Closing b now last stop h c = ground arith

init-Closing : (sleep_enabled : Bool) (last : ℕ) → Closing (ble_log_init sleep_enabled) last
unfolding ble_log_init adv_continuous
init-Closing sleep_enabled last = ground arith

run-Closing :
    (b : Ble) (last : ℕ) (ops : List (ℕ × BleOp))
    → All (λ (e : ℕ × BleOp). e.0 ≤ last) ops
    → Closing b last
    → Closing (ble_run b ops) last
unfolding ble_run
run-Closing b last [] h c = c
run-Closing b last ((now, op) ∷ ops) h c =
    run-Closing (ble_step b (now, op)) last ops h.1 (step-Closing b now last op h.0 c)

Closing-end :
    (b : Ble) (last now : ℕ)
    → Closing b last
    → b.advertising ≡ true
    → b.conn ≡ false
    → adv_continuous b ≡ false
    → b.submitted ≡ false
    → (due : ℕ) × (b.stop_due ≡ some due)
      × (due ≤ last + adv_window_ms)
      × ((ble_step b (now, stop)).advertising ≡ false)
unfolding ble_step adv_continuous
Closing-end b last now c a l k s = elim (Option-cases b.stop_due) [
  | inl e ↦ absurd (ground (arith, c.scheduled, e, a, l, k, s))
  | inr (d, e) ↦ (d, e, ground (arith, c.in_time, e), ground (arith, e, l, k))
]

-- The window always closes: from boot on, after any calls, links and work up to the time `last`, if the
-- tag advertises with no link, with neither `pwr adv on` nor `pwr sleep off` in force, and with no
-- new window asked for, the stop is due at most 60 s after `last`, and it ends the advertising.
pub window_closes :
    (sleep_enabled : Bool) (ops : List (ℕ × BleOp)) (last now : ℕ)
    → All (λ (e : ℕ × BleOp). e.0 ≤ last) ops
    → (ble_run (ble_log_init sleep_enabled) ops).advertising ≡ true
    → (ble_run (ble_log_init sleep_enabled) ops).conn ≡ false
    → adv_continuous (ble_run (ble_log_init sleep_enabled) ops) ≡ false
    → (ble_run (ble_log_init sleep_enabled) ops).submitted ≡ false
    → (due : ℕ) × ((ble_run (ble_log_init sleep_enabled) ops).stop_due ≡ some due)
      × (due ≤ last + adv_window_ms)
      × ((ble_step (ble_run (ble_log_init sleep_enabled) ops) (now, stop)).advertising ≡ false)
window_closes sleep_enabled ops last now h a c k s =
    Closing-end (ble_run (ble_log_init sleep_enabled) ops) last now
      (run-Closing (ble_log_init sleep_enabled) last ops h (init-Closing sleep_enabled last)) a c k
      s
