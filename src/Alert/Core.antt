-- ===== src/Alert/Core.antt =====
-- src/tag_alert_core.c: epoch, state and repeat schedule of the tag's own alert.
pub mod Schedule
use tag_testting.Common.{
  ℕ, ◌+◌, ◌-◌, ◌^◌, Bool, true, false, Option, none, some, not, ◌==◌, if◌then◌else◌, u8, u32, sub32,
  sge32,
}
use tag_testting.Alert.Message.{state_help, state_cancel}

abbrev pub repeat_ms : ℕ
repeat_ms = 10000

abbrev pub cancel_repeats : ℕ
cancel_repeats = 6

-- `tag_alert_st_t`
pub data AlertState : Type 0 where
  off help cancelling : AlertState

-- `struct tag_alert_core`
pub record AlertCore : Type 0 where
  pub state : AlertState
  pub epoch : ℕ
  pub repeat_seq : ℕ
  pub cancels_left : ℕ
  pub next_tx_ms : ℕ
  pub armed : Bool

abbrev pub is_help : AlertState → Bool
is_help help = true
is_help _ = false

abbrev pub is_off : AlertState → Bool
is_off off = true
is_off _ = false

abbrev pub is_cancelling : AlertState → Bool
is_cancelling cancelling = true
is_cancelling _ = false

-- `tag_alert_core_init`
unfoldable pub init : ℕ → AlertCore
init epoch_from_nvs = record {
  state = off;
  epoch = epoch_from_nvs;
  repeat_seq = 0;
  cancels_left = 0;
  next_tx_ms = 0;
  armed = false;
}

-- `tag_alert_core_raise`
unfoldable pub raise : AlertCore → ℕ → AlertCore × Bool
raise c now_ms = if is_help c.state then (c, false) else (
  record c {
    epoch = u8 (c.epoch + 1);
    repeat_seq = 0;
    state = help;
    next_tx_ms = now_ms;
    armed = true;
  },
  true,
)

-- `tag_alert_core_cancel`
unfoldable pub cancel : AlertCore → ℕ → AlertCore
cancel c now_ms = if not (is_help c.state) then c else record c {
  state = cancelling;
  cancels_left = cancel_repeats;
  repeat_seq = 0;
  next_tx_ms = now_ms;
  armed = true;
}

-- What `tag_alert_core_due` writes through its out pointers.
pub record Due : Type 0 where
  pub state_out : ℕ
  pub epoch_out : ℕ
  pub rep_out : ℕ

-- `tag_alert_core_due`; `none` is its false
unfoldable pub due : AlertCore → ℕ → AlertCore × Option Due
due c now_ms =
    if is_off c.state
    then (record c { armed = false }, none)
    else let is_due = sge32 (sub32 now_ms c.next_tx_ms) 0 in
      let c' = record c { armed = is_due } in
      if not is_due then (c', none) else (
        c',
        some (record {
          state_out = if is_help c.state then state_help else state_cancel;
          epoch_out = c.epoch;
          rep_out = c.repeat_seq;
        }),
      )

-- `tag_alert_core_sent`; the countdown is a `uint8_t`
unfoldable pub sent : AlertCore → ℕ → AlertCore
sent c now_ms =
    let c' = record c {
      repeat_seq = u8 (c.repeat_seq + 1);
      next_tx_ms = u32 (now_ms + repeat_ms);
    } in
    if is_cancelling c'.state
    then (let c'' = record c' { cancels_left = u8 (c'.cancels_left + 2 ^ 8 - 1) } in
        if c''.cancels_left == 0 then record c'' { state = off } else c'')
    else c'
