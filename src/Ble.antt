-- ===== src/Ble.antt =====
-- src/ble_log.c: when the tag advertises over Bluetooth, and the sender of log lines. The controller's
-- answers, the system's work queue and the links that come and go are inputs.
pub mod Window
mod Tests
use tag_testting.Common.{
  ℕ, zero, suc, ◌+◌, Bool, true, false, not, ◌||◌, ◌&&◌, Option, none, some, List, [], ◌∷◌, ◌==◌,
  if◌then◌else◌,
}

-- `ADV_WINDOW_MS`
abbrev pub adv_window_ms : ℕ
adv_window_ms = 60000

-- The statics of the file with the flag that `uwb_radio_sleep_enabled` reads; whether `adv_work` is
-- submitted and when `adv_stop_work` is due; and whether the controller advertises.
pub record Ble : Type 0 where
  pub adv_forced : Bool
  pub sleep_enabled : Bool
  pub conn : Bool
  pub submitted : Bool
  pub stop_due : Option ℕ
  pub advertising : Bool

-- After `ble_log_init`: no advertising at boot.
unfoldable pub ble_log_init : Bool → Ble
ble_log_init sleep_enabled = record {
  adv_forced = false;
  sleep_enabled = sleep_enabled;
  conn = false;
  submitted = false;
  stop_due = none;
  advertising = false;
}

-- `adv_continuous`
unfoldable pub adv_continuous : Ble → Bool
adv_continuous b = b.adv_forced || not b.sleep_enabled

-- What `bt_le_adv_start` returns: 0, `-EALREADY` or another error.
pub data AdvStart : Type 0 where
  started already failed : AdvStart

-- `k_work_reschedule(&adv_stop_work, K_MSEC(ADV_WINDOW_MS))`
unfoldable pub arm : Ble → ℕ → Ble
arm b now = record b { stop_due = some (now + adv_window_ms) }

-- `adv_work_fn` after a start that was not refused
unfoldable pub window_opened : Ble → ℕ → Ble
unfolding adv_continuous arm
window_opened b now =
    let b' = record b { advertising = true } in
    if adv_continuous b then record b' { stop_due = none } else arm b' now

-- `adv_work_fn`, as the work queue runs it
unfoldable pub adv_work_fn : Ble → AdvStart → ℕ → Ble
unfolding window_opened
adv_work_fn b failed now = record b { submitted = false }
adv_work_fn b started now = window_opened (record b { submitted = false }) now
adv_work_fn b already now = window_opened (record b { submitted = false }) now

-- `adv_stop_work_fn`, as the work queue runs it when it is due, and whether `bt_le_adv_stop` succeeds
unfoldable pub adv_stop_work_fn : Ble → Bool → Ble
unfolding adv_continuous
adv_stop_work_fn b stops =
    let b' = record b { stop_due = none } in
    if b.conn || adv_continuous b
    then b'
    else record b' { advertising = b.advertising && not stops }

-- `ble_log_adv_window`
unfoldable pub ble_log_adv_window : Ble → Ble
ble_log_adv_window b = record b { submitted = true }

-- `ble_log_adv_force`
unfoldable pub ble_log_adv_force : Ble → Bool → ℕ → Ble
unfolding arm
ble_log_adv_force b on now =
    let b' = record b { adv_forced = on } in
    if on then record b' { submitted = true } else arm b' now

-- `ble_log_adv_forced`
unfoldable pub ble_log_adv_forced : Ble → Bool
ble_log_adv_forced b = b.adv_forced

-- `on_connected`, and whether the controller still advertises
unfoldable pub on_connected : Ble → Bool → Bool → Ble
on_connected b err still = if not err then record b { conn = true; advertising = still } else b

-- `on_disconnected`
unfoldable pub on_disconnected : Ble → Ble
on_disconnected b = record b { conn = false; submitted = true }

-- `uwb_radio_set_sleep_enabled` as `pwr sleep` calls it, before it opens a window.
unfoldable pub set_sleep : Ble → Bool → Ble
unfolding ble_log_adv_window
set_sleep b on = ble_log_adv_window (record b { sleep_enabled = on })

-- What `bt_nus_send` returns: `-ENOMEM`, or anything else.
pub data NusSend : Type 0 where
  no_memory over : NusSend

-- The loop of `ble_log_send_raw`, with the rounds left: the number of calls of `bt_nus_send`.
unfoldable pub send_rounds : ℕ → List NusSend → ℕ
send_rounds zero answers = 0
send_rounds (suc n) [] = 1
send_rounds (suc n) (over ∷ answers) = 1
send_rounds (suc n) (no_memory ∷ answers) = suc (send_rounds n answers)

-- `ble_log_send_raw` of a buffer, given as its length if it is not NULL: the number of calls.
unfoldable pub ble_log_send_raw : Ble → Option ℕ → List NusSend → ℕ
unfolding send_rounds
ble_log_send_raw b none answers = 0
ble_log_send_raw b (some len) answers = if not b.conn || len == 0 then 0 else send_rounds 50 answers
