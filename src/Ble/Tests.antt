-- ===== src/Ble/Tests.antt =====
-- The window of src/ble_log.c after one press of the button.
use tag_testting.Common.{ℕ, ◌+◌, ◌≤◌, ◌≡◌, refl, true, false, some, List, [], ◌∷◌, arith}
use tag_testting.Ble.{ble_log_init, adv_window_ms}
use tag_testting.Ble.Window.{BleOp, window, work, stop, ble_run, ble_step, window_closes}

-- A press of the button at 1000 ms, and the work queue's turn after it.
abbrev pressed : List (ℕ × BleOp)
pressed = (1000, window) ∷ (1001, work false) ∷ []

window_closes_example :
    (due : ℕ) × ((ble_run (ble_log_init true) pressed).stop_due ≡ some due)
    × (due ≤ 1001 + adv_window_ms)
    × ((ble_step (ble_run (ble_log_init true) pressed) (61001, stop)).advertising ≡ false)
unfolding ble_run ble_step ble_log_init
window_closes_example = window_closes true pressed 1001 61001 (omega arith) refl refl refl refl
