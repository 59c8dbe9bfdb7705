-- ===== src/Cal/Run/Command.antt =====
-- The commands of the calibration console: `cal_run_on_rx` and the thread of src/cal_run.c, and
-- `cal_on_rx` of src/cal.c. Characters are their codes; the lines that are sent back are values.
pub mod Request
use tag_testting.Common.{
  ℕ, ◌+◌, ◌-◌, ◌*◌, Bool, true, false, ◌&&◌, not, Option, none, some, List, [], ◌∷◌, ltb, leb, ◌==◌,
  if◌then◌else◌, u32, take, drop, bytes_eq, ℤ,
}
use tag_testting.Storage.{Nvs}
use tag_testting.Cal.Store.{CalStore}
use tag_testting.Cal.Run.{CalRun, LastResult, cal_clear, cal_set_last_result, cal_run_run}
use tag_testting.Cal.Run.LastResult.{running}

-- The characters of `cal `
abbrev pub cal_prefix : List ℕ
cal_prefix = 99 ∷ 97 ∷ 108 ∷ 32 ∷ []

-- `cal clear`
abbrev pub cal_clear_text : List ℕ
cal_clear_text = 99 ∷ 97 ∷ 108 ∷ 32 ∷ 99 ∷ 108 ∷ 101 ∷ 97 ∷ 114 ∷ []

-- `cal last`
abbrev pub cal_last_text : List ℕ
cal_last_text = 99 ∷ 97 ∷ 108 ∷ 32 ∷ 108 ∷ 97 ∷ 115 ∷ 116 ∷ []

-- `cal selftest`
abbrev pub cal_selftest_text : List ℕ
cal_selftest_text = 99 ∷ 97 ∷ 108 ∷ 32 ∷ 115 ∷ 101 ∷ 108 ∷ 102 ∷ 116 ∷ 101 ∷ 115 ∷ 116 ∷ []

-- `cal status`
abbrev pub cal_status_text : List ℕ
cal_status_text = 99 ∷ 97 ∷ 108 ∷ 32 ∷ 115 ∷ 116 ∷ 97 ∷ 116 ∷ 117 ∷ 115 ∷ []

abbrev pub is_digit : ℕ → Bool
is_digit b = leb 48 b && leb b 57

-- The loop of `cal_run_parse_u32`, to the end of the string or a character that is no digit.
unfoldable pub parse_digits : ℕ → List ℕ → ℕ
parse_digits v [] = v
parse_digits v (b ∷ bs) =
    let rest = parse_digits (u32 (v * 10 + (b - 48))) bs in if is_digit b then rest else v

-- `cal_run_parse_u32`
unfoldable pub cal_run_parse_u32 : List ℕ → Option ℕ
unfolding parse_digits
cal_run_parse_u32 [] = none
cal_run_parse_u32 (b ∷ bs) = if is_digit b then some (parse_digits 0 (b ∷ bs)) else none

abbrev pub is_eol : ℕ → Bool
is_eol b = if b == 13 then true else b == 10

abbrev pub is_empty : List ℕ → Bool
is_empty [] = true
is_empty (b ∷ bs) = false

-- The loop that cuts the ends of line off the buffer.
unfoldable pub trim_eol : List ℕ → List ℕ
trim_eol [] = []
trim_eol (b ∷ bs) = let rest = trim_eol bs in if is_empty rest && is_eol b then [] else b ∷ rest

-- The string in a buffer, to its first zero.
unfoldable pub c_string : List ℕ → List ℕ
c_string [] = []
c_string (b ∷ bs) = let rest = c_string bs in if b == 0 then [] else b ∷ rest

-- The buffer of 24 bytes that both handlers fill.
unfoldable pub command_of : List ℕ → List ℕ
unfolding trim_eol c_string
command_of data_bytes = c_string (trim_eol (take 23 data_bytes))

-- The lines that `ble_log_send` is given.
pub data Reply : Type 0 where
  cleared clear_failed start busy usage required unavailable : Reply
  last : LastResult → Reply
  selftest : ℕ → Reply
  status : ℕ → ℕ → Reply

module _ (N : Nvs) where
  -- `cal_on_rx`
  unfoldable pub cal_on_rx : CalStore N → List ℕ → Reply
  unfolding command_of
  cal_on_rx c data_bytes =
      if bytes_eq (command_of data_bytes) cal_status_text
      then (if c.active_valid then status c.active.tx_ant_dly c.active.rx_ant_dly else required)
      else unavailable

  -- The calibration, the flag `cal_run_busy`, the queue `cal_run_q`, which holds one request, and the
  -- request that the thread has taken.
  pub record Console : Type 0 where
    pub run : CalRun N
    pub run_busy : Bool
    pub queue : Option ℕ

  -- The end of `cal_run_on_rx`: a request to calibrate to a distance.
  unfoldable pub request_run : Console → ℕ → Console × Reply
  unfolding cal_set_last_result
  request_run s mm = if s.run_busy then (s, busy) else elim (s.queue) [
    | none ↦ (record s { queue = some mm; run = cal_set_last_result N s.run running }, start)
    | some waiting ↦ (s, busy)
  ]

  -- `cal_run_on_rx`, with the sum of the two self-tests
  unfoldable pub cal_run_on_rx : Console → ℕ → List ℕ → Console × Reply
  unfolding cal_clear command_of cal_run_parse_u32 request_run
  cal_run_on_rx s selftests data_bytes =
      let buf = command_of data_bytes in
      if bytes_eq buf cal_clear_text
      then (
        record s { run = (cal_clear N s.run).0 },
        if (cal_clear N s.run).1 then cleared else clear_failed,
      )
      else if bytes_eq buf cal_last_text
      then (s, last s.run.cal_last)
      else if bytes_eq buf cal_selftest_text
      then (s, selftest selftests)
      else if bytes_eq (take 4 buf) cal_prefix
      then elim (cal_run_parse_u32 (drop 4 buf)) [
        | none ↦ (s, usage)
        | some mm ↦ (if ltb 0 mm then request_run s mm else (s, usage))
      ]
      else (s, usage)

  -- `k_msgq_get` of the thread: it takes a request out of the queue.
  unfoldable pub take_request : Console → Option (Console × ℕ)
  take_request s = elim (s.queue) [ none ↦ none | some mm ↦ some (record s { queue = none }, mm) ]

  -- The thread's next statement. A command that arrives before it finds an idle console.
  unfoldable pub begin_run : Console → Console
  begin_run s = record s { run_busy = true }

  -- The thread's way with the request: the run, and the flag comes down.
  unfoldable pub finish_request : Console → ℕ → Bool → ℕ → ℕ → List (ℕ × Option ℤ) → Console
  finish_request s mm claimed phy start_ms attempts = record s {
    run = cal_run_run N s.run claimed phy mm start_ms attempts;
    run_busy = false;
  }

  -- One turn of `cal_run_fn` with no command in between; it waits without a request.
  unfoldable pub cal_run_fn : Console → Bool → ℕ → ℕ → List (ℕ × Option ℤ) → Console
  unfolding take_request begin_run finish_request
  cal_run_fn s claimed phy start_ms attempts = elim (take_request s) [
    | none ↦ s
    | some (taken, mm) ↦ finish_request (begin_run taken) mm claimed phy start_ms attempts
  ]
