-- ===== src/Ui.antt =====
-- src/tag_ui.c: the button, its gestures and the lamp. Edges pass the interrupt handler into a queue
-- of eight events, and the thread takes them out one by one.
pub mod Edges
pub mod Gestures
pub mod Missed
mod Tests
use tag_testting.Common.{
  ℕ, ◌+◌, ◌/◌, ◌%◌, ◌^◌, Bool, true, false, not, Option, none, some, List, [], ◌∷◌, ◌++◌, ltb, leb,
  ◌==◌, if◌then◌else◌, length, u32, sub32, ℤ, pos, signed32, ◌-ℤ◌, leb_ℤ,
}
use tag_testting.Storage.{Nvs}
use tag_testting.Alert.Persist.{TagAlert, tag_alert_raise, tag_alert_cancel}

abbrev pub debounce_ms : ℕ
debounce_ms = 30

abbrev pub double_ms : ℕ
double_ms = 350

abbrev pub long_ms : ℕ
long_ms = 3000

abbrev pub blink_ms : ℕ
blink_ms = 500

abbrev pub battery_ms : ℕ
battery_ms = 5000

-- `struct btn_ev`
pub record BtnEv : Type 0 where
  pub t_ms : ℕ
  pub pressed : Bool

-- The static `last_edge_ms` and the message queue `press_q`, oldest first.
pub record Ui : Type 0 where
  pub last_edge_ms : ℕ
  pub press_q : List BtnEv

abbrev pub queue_len : ℕ
queue_len = 8

-- `k_msgq_put(&press_q, &ev, K_NO_WAIT)`, which drops the event if the queue is full
unfoldable pub put : Ui → BtnEv → Ui
put u ev =
    if ltb (length u.press_q) queue_len then record u { press_q = u.press_q ++ ev ∷ [] } else u

-- `button_isr`, at its clock reading and with the level of the pin
unfoldable pub button_isr : Ui → ℕ × Bool → Ui
unfolding put
button_isr u (now, level) =
    let u' = record u { last_edge_ms = now } in
    if ltb (sub32 now u.last_edge_ms) debounce_ms
    then u'
    else put u' (record { t_ms = now; pressed = level })

unfoldable pub edges : Ui → List (ℕ × Bool) → Ui
unfolding button_isr
edges u [] = u
edges u (e ∷ es) = edges (button_isr u e) es

-- One round of a loop of the thread: the clock that it reads, and the edges that have come since the
-- round before, up to the return of its call of `k_msgq_get`, if it makes one.
pub record Round : Type 0 where
  pub clock : ℕ
  pub since : List (ℕ × Bool)

-- `k_msgq_get`: the oldest event; it times out only if none has come.
unfoldable pub get : Ui → Option BtnEv × Ui
get u = elim (u.press_q) [ [] ↦ (none, u) | ev ∷ q ↦ (some ev, record u { press_q = q }) ]

-- `(int32_t)limit - (int32_t)(now - t1) <= 0`
unfoldable pub expired : ℕ → ℕ → ℕ → Bool
expired limit now t1 = leb_ℤ (pos limit -ℤ signed32 (sub32 now t1)) (pos 0)

-- How the first window ends: by a second press, or with the button released or not.
pub data Window : Type 0 where
  double_press released_first held : Window

abbrev pub window_of : Bool → Window
window_of b = if b then released_first else held

-- What a call of `k_msgq_get` gave in phase 1; `more` is the rest of the phase after a release.
unfoldable pub got_first :
    Bool
    → Option BtnEv × Ui
    → List Round
    → Option (Window × Ui × List Round)
    → Option (Window × Ui × List Round)
got_first released (none, u) rs more = some (window_of released, u, rs)
got_first released (some ev, u) rs more = if ev.pressed then some (double_press, u, rs) else more

-- Phase 1, from the flag `released_first`; `none` is a thread that still waits.
unfoldable pub phase1 : ℕ → Bool → Ui → List Round → Option (Window × Ui × List Round)
unfolding edges get expired got_first
phase1 t1 released u [] = none
phase1 t1 released u (r ∷ rs) =
    let u' = edges u r.since in
    let more = phase1 t1 true (get u').1 rs in
    if expired double_ms r.clock t1
    then some (window_of released, u', rs)
    else got_first released (get u') rs more

-- What a call gave while the button is held: only a release ends the wait.
unfoldable pub got_held :
    Option BtnEv × Ui
    → List Round
    → Option (Bool × Ui × List Round)
    → Option (Bool × Ui × List Round)
got_held (none, u) rs more = more
got_held (some ev, u) rs more = if not ev.pressed then some (false, u, rs) else more

-- The wait for a long press: true is `long_press`.
unfoldable pub phase2 : ℕ → Ui → List Round → Option (Bool × Ui × List Round)
unfolding edges get expired got_held
phase2 t1 u [] = none
phase2 t1 u (r ∷ rs) =
    let u' = edges u r.since in
    let more = phase2 t1 (get u').1 rs in
    if expired long_ms r.clock t1 then some (true, u', rs) else got_held (get u') rs more

unfoldable pub got_after :
    Option BtnEv × Ui → List Round → Option (Ui × List Round) → Option (Ui × List Round)
got_after (none, u) rs more = some (u, rs)
got_after (some ev, u) rs more = if not ev.pressed then some (u, rs) else more

-- The loop that consumes the release of a long press.
unfoldable pub consume_release : Ui → List Round → Option (Ui × List Round)
unfolding edges get got_after
consume_release u [] = none
consume_release u (r ∷ rs) =
    let u' = edges u r.since in
    let more = consume_release (get u').1 rs in got_after (get u') rs more

unfoldable pub got_shown :
    Option BtnEv × Ui
    → List Round
    → Option (Option BtnEv × Ui × List Round)
    → Option (Option BtnEv × Ui × List Round)
got_shown (none, u) rs more = more
got_shown (some ev, u) rs more = if ev.pressed then some (some ev, u, rs) else more

-- The battery display until its deadline: the press that ends it, which is to restart, if any.
unfoldable pub display : ℕ → Ui → List Round → Option (Option BtnEv × Ui × List Round)
unfolding edges get got_shown
display deadline u [] = none
display deadline u (r ∷ rs) =
    let u' = edges u r.since in
    let more = display deadline (get u').1 rs in
    if leb_ℤ (signed32 (sub32 deadline r.clock)) (pos 0)
    then some (none, u', rs)
    else got_shown (get u') rs more

-- What a turn of the thread did.
pub data Gesture : Type 0 where
  idle raised cancelled shown : Gesture

-- The press that ended the display goes back into the queue.
unfoldable pub requeue : Option BtnEv → Ui → Ui
unfolding put
requeue none u = u
requeue (some ev) u = put u ev

unfoldable pub after_display :
    Option (Option BtnEv × Ui × List Round) → Option (Gesture × Ui × List Round)
unfolding requeue
after_display none = none
after_display (some (restart, u, rs)) = some (shown, requeue restart u, rs)

-- A single press: `ble_log_adv_window`, `led_show_battery`, and the display from the clock read then.
unfoldable pub single_press : Ui → List Round → Option (Gesture × Ui × List Round)
unfolding edges display after_display
single_press u [] = none
single_press u (r ∷ rs) = after_display (display (u32 (r.clock + battery_ms)) (edges u r.since) rs)

-- The end of a long press, after `tag_alert_cancel` and the green flash.
unfoldable pub after_long : Option (Ui × List Round) → Option (Gesture × Ui × List Round)
after_long none = none
after_long (some (u, rs)) = some (cancelled, u, rs)

unfoldable pub after_hold : Option (Bool × Ui × List Round) → Option (Gesture × Ui × List Round)
unfolding after_long consume_release single_press
after_hold none = none
after_hold (some (long_press, u, rs)) =
    if long_press then after_long (consume_release u rs) else single_press u rs

unfoldable pub after_window :
    ℕ → Option (Window × Ui × List Round) → Option (Gesture × Ui × List Round)
unfolding phase2 after_hold single_press
after_window t1 none = none
after_window t1 (some (double_press, u, rs)) = some (raised, u, rs)
after_window t1 (some (released_first, u, rs)) = single_press u rs
after_window t1 (some (held, u, rs)) = after_hold (phase2 t1 u rs)

unfoldable pub got_idle : Option BtnEv × Ui → List Round → Option (Gesture × Ui × List Round)
unfolding phase1 after_window
got_idle (none, u) rs = some (idle, u, rs)
got_idle (some ev, u) rs =
    if not ev.pressed then some (idle, u, rs) else after_window ev.t_ms (phase1 ev.t_ms false u rs)

-- One turn of the loop of `ui_fn`. The clock of the first round is not read.
unfoldable pub ui_fn : Ui → List Round → Option (Gesture × Ui × List Round)
unfolding edges get got_idle
ui_fn u [] = none
ui_fn u (r ∷ rs) = got_idle (get (edges u r.since)) rs

pub data Lamp : Type 0 where
  dark red green cyan blue : Lamp
  battery : ℕ → Lamp

-- `led_show_alert`: what it shows, or `none` for its false
unfoldable pub led_show_alert : Bool → ℕ → Option Lamp
led_show_alert alert now =
    if not alert then none else if now / blink_ms % 2 == 0 then some red else some dark

-- `led_idle`
unfoldable pub led_idle : Bool → ℕ → Lamp
unfolding led_show_alert
led_idle alert now = elim (led_show_alert alert now) [ none ↦ dark | some lamp ↦ lamp ]

-- What `batt_read_soc` returned: charging is its `-EBUSY`.
pub data Battery : Type 0 where
  charging : Battery
  failed : ℕ → Battery
  charge : ℕ → Battery

-- The lamp of `led_show_battery`; `none` leaves it as it is.
unfoldable pub led_show_battery : Bool → Battery → Option Lamp
led_show_battery alert charging = if not alert then some cyan else none
led_show_battery alert (failed err) = if not alert then some blue else none
led_show_battery alert (charge soc) = if not alert then some (battery soc) else none

-- What the thread calls in src/tag_alert.c for a gesture, at the clock that is read there.
unfoldable pub perform : (N : Nvs) → TagAlert N → Gesture → ℕ → TagAlert N
perform N alert raised now = tag_alert_raise N alert now
perform N alert cancelled now = tag_alert_cancel N alert now
perform N alert idle now = alert
perform N alert shown now = alert
