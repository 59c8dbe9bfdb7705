-- ===== src/Command/Handler.antt =====
-- `tag_cmd_on_rx` of src/tag_cmd.c, in both builds: `cal_mode` is CONFIG_TAG_CAL_MODE.
use tag_testting.Common.{
  ℕ, ◌*◌, ◌/◌, ◌%◌, ◌^◌, Bool, true, false, not, ◌&&◌, ◌||◌, Option, none, some, List, [], ◌∷◌, map,
  ltb, ◌==◌, if◌then◌else◌, take, drop, bytes_eq, bit_and,
}
use tag_testting.Storage.{Nvs}
use tag_testting.Net.Tiers.{Table}
use tag_testting.Stats.{Reading, RxReport}
use tag_testting.Alert.Persist.{
  TagAlert, tag_alert_raise, tag_alert_cancel, tag_alert_active, tag_alert_epoch,
}
use tag_testting.Debug.Session.{Dbg, Line, pos_dbg_on_cmd}
use tag_testting.Ble.{Ble, ble_log_adv_force, ble_log_adv_forced, set_sleep}
use tag_testting.PosCfg.{Heights}
use tag_testting.PosCfg.Command.{PosReply, char_at, pos_cfg_on_cmd, skip_spaces}
use tag_testting.Fault.{FaultRec, tag_fault_get, tag_fault_clear, FaultReport}
use tag_testting.Cal.Run.Command.{command_of}
use tag_testting.Command.{codes, TierReply, cmd_tier}

-- What the other modules report when they are asked.
pub record Reports : Type 0 where
  pub stack_ss : ℕ
  pub stack_run : ℕ
  pub stack_ble : ℕ
  pub idle_window : Option Reading
  pub rx_stats : Option RxReport
  pub sched : Option (ℕ × ℕ × ℕ × ℕ × ℕ × ℕ)
  pub scan : ℕ × ℕ

-- The lines that are sent, and the calls of the modules that are not part of the state.
pub data CmdReply : Type 0 where
  rst : ℕ → ℕ → CmdReply
  flt_cleared flt_none : CmdReply
  flt : FaultReport → CmdReply
  stk : ℕ → ℕ → ℕ → CmdReply
  help_on help_off : ℕ → CmdReply
  help_cancel : CmdReply
  pos_line : PosReply → CmdReply
  pos_usage dbg_usage : CmdReply
  dbg_line : Line → CmdReply
  pwr_sleep pwr_adv : Bool → CmdReply
  idle_line : Reading → CmdReply
  idle_none rx_none rx_reset sch_none sch_reset : CmdReply
  rx_lines : RxReport → ℕ → ℕ → CmdReply
  tier_line : TierReply → CmdReply
  sch_lines : ℕ → ℕ → ℕ → ℕ → ℕ → ℕ → ℕ → CmdReply
  scan_line : ℕ → ℕ → CmdReply

-- The calls of modules whose state is not here: `rx_stats_reset`, `uwb_net_runner_sched_reset_stats`,
-- and the forwarding of the raw write.
pub data Order : Type 0 where
  reset_rx reset_sched : Order
  to_cal_diag to_cal_run to_cal : List ℕ → Order

module _ (N : Nvs) where
  -- The parts of the tag that a command reaches, over one storage, which the alert's field holds.
  pub record Tag : Type 0 where
    pub alert : TagAlert N
    pub heights : Heights
    pub dbg : Dbg
    pub ble : Ble
    pub tiers : Table
    pub reset_reason : ℕ
    pub fault : FaultRec

  abbrev pub Answer : Type 0
  Answer = Tag × List CmdReply × List Order

  -- The first of some cases whose test holds, or else the last: a ladder of `else if`.
  unfoldable pub first_case : List (Bool × Answer) → Answer → Answer
  first_case [] last = last
  first_case ((test, a) ∷ cases) last = if test then a else first_case cases last

  -- `why`: 0 is `dog`, 1 `sreq`, 2 `lock`, 3 `pin` and 4 `pwr`.
  unfoldable pub why : ℕ → ℕ
  why r =
      if not (bit_and r 2 == 0)
      then 0
      else if not (bit_and r 4 == 0)
      then 1
      else if not (bit_and r 8 == 0)
      then 2
      else if not (bit_and r 1 == 0)
      then 3
      else 4

  unfoldable pub fault_lines : Option FaultReport → List CmdReply
  fault_lines none = flt_none ∷ []
  fault_lines (some r) = flt r ∷ []

  -- The branch of `fault`.
  unfoldable pub on_fault : Tag → Bool → Answer
  unfolding fault_lines
  on_fault s clears =
      if clears then (record s { fault = tag_fault_clear s.fault }, flt_cleared ∷ [], []) else (
        record s { fault = (tag_fault_get s.fault).0 },
        fault_lines (tag_fault_get s.fault).1,
        [],
      )

  unfoldable pub pos_lines : Option PosReply → List CmdReply
  pos_lines none = pos_usage ∷ []
  pos_lines (some r) = pos_line r ∷ []

  -- The branch of `pos`.
  unfoldable pub on_pos : Tag → List ℕ → Answer
  unfolding pos_lines
  on_pos s buf =
      let (c, reply) =
        pos_cfg_on_cmd N (record { active = s.heights; storage = s.alert.storage }) buf in
      (
        record s { heights = c.active; alert = record (s.alert) { storage = c.storage } },
        pos_lines reply,
        [],
      )

  -- The branch of `dbg`.
  unfoldable pub on_dbg : Tag → List ℕ → Answer
  on_dbg s buf =
      let (d, consumed, lines) = pos_dbg_on_cmd s.dbg buf in
      (record s { dbg = d }, if not consumed then dbg_usage ∷ [] else map dbg_line lines, [])

  abbrev pub at_most : ℕ → ℕ → ℕ
  at_most limit v = if ltb limit v then limit else v

  unfoldable pub idle_lines : Option Reading → List CmdReply
  idle_lines none = idle_none ∷ []
  idle_lines (some r) = idle_line r ∷ []

  unfoldable pub rx_report : Option RxReport → List CmdReply
  rx_report none = rx_none ∷ []
  rx_report (some r) = rx_lines r (at_most 99999 r.beacons) (at_most 9999 r.misses) ∷ []

  -- The period in whole and hundredth milliseconds, and the counters, cut to fit the line.
  unfoldable pub sched_report : Option (ℕ × ℕ × ℕ × ℕ × ℕ × ℕ) → List CmdReply
  sched_report none = sch_none ∷ []
  sched_report (some (pq, win, skip, miss, ok_count, miss_count)) =
      sch_lines (pq / 2 ^ 16) (pq % 2 ^ 16 * 100 / 2 ^ 16) win skip miss (at_most 99999 ok_count)
        (at_most 9999 miss_count)
      ∷ []

  -- The cases of `pwr`.
  unfoldable pub pwr_cases : Tag → Reports → ℕ → List ℕ → List (Bool × Answer)
  unfolding idle_lines rx_report sched_report
  pwr_cases s r now buf =
      (
        bytes_eq buf (codes "pwr sleep on"),
        (record s { ble = set_sleep s.ble true }, pwr_sleep true ∷ [], []),
      )
      ∷ (
        bytes_eq buf (codes "pwr sleep off"),
        (record s { ble = set_sleep s.ble false }, pwr_sleep false ∷ [], []),
      )
      ∷ (
        bytes_eq buf (codes "pwr adv on"),
        (record s { ble = ble_log_adv_force s.ble true now }, pwr_adv true ∷ [], []),
      )
      ∷ (
        bytes_eq buf (codes "pwr adv off"),
        (record s { ble = ble_log_adv_force s.ble false now }, pwr_adv false ∷ [], []),
      )
      ∷ (bytes_eq buf (codes "pwr adv"), (s, pwr_adv (ble_log_adv_forced s.ble) ∷ [], []))
      ∷ (bytes_eq buf (codes "pwr idle"), (s, idle_lines r.idle_window, []))
      ∷ (bytes_eq buf (codes "pwr rx"), (s, rx_report r.rx_stats, []))
      ∷ (bytes_eq buf (codes "pwr rxrst"), (s, rx_reset ∷ [], reset_rx ∷ []))
      ∷ (
        bytes_eq (take 8 buf) (codes "pwr tier") && (char_at buf 8 == 0 || char_at buf 8 == 32),
        (
          record s { tiers = (cmd_tier s.tiers (skip_spaces (drop 8 buf))).0 },
          map tier_line (cmd_tier s.tiers (skip_spaces (drop 8 buf))).1,
          [],
        ),
      )
      ∷ (bytes_eq buf (codes "pwr sched"), (s, sched_report r.sched, []))
      ∷ (bytes_eq buf (codes "pwr schedrst"), (s, sch_reset ∷ [], reset_sched ∷ []))
      ∷ (bytes_eq buf (codes "pwr scan"), (s, scan_line r.scan.0 (r.scan.1 / 1000) ∷ [], []))
      ∷ []

  -- The branch of `pwr`.
  unfoldable pub on_pwr : Tag → Reports → ℕ → List ℕ → Answer
  unfolding first_case pwr_cases
  on_pwr s r now buf =
      first_case (pwr_cases s r now buf) (s, pwr_sleep s.ble.sleep_enabled ∷ [], [])

  -- The cases of the calibration build, whose commands get the raw write. What they then do, also to
  -- the flash, is in Cal.Run.Command.
  unfoldable pub cal_cases : Tag → List ℕ → List ℕ → List (Bool × Answer)
  cal_cases s buf raw =
      (
        bytes_eq (take 10 buf) (codes "cal listen") || bytes_eq (take 9 buf) (codes "cal probe"),
        (s, [], to_cal_diag raw ∷ []),
      )
      ∷ (
        bytes_eq (take 4 buf) (codes "cal ") && not (bytes_eq buf (codes "cal status")),
        (s, [], to_cal_run raw ∷ []),
      )
      ∷ []

  -- Where what is no other command goes.
  unfoldable pub forward_cal : Bool → Tag → List ℕ → List ℕ → Answer
  unfolding first_case cal_cases
  forward_cal cal_mode s buf raw =
      if cal_mode
      then first_case (cal_cases s buf raw) (s, [], to_cal raw ∷ [])
      else (s, [], to_cal raw ∷ [])

  abbrev pub is_word : List ℕ → List ℕ → Bool
  is_word buf word = bytes_eq (take 3 buf) word && (char_at buf 3 == 0 || char_at buf 3 == 32)

  -- The cases of `tag_cmd_on_rx` but the last, which forwards the write.
  unfoldable pub cases_of : Tag → Reports → ℕ → List ℕ → List (Bool × Answer)
  unfolding why on_fault on_pos on_dbg on_pwr
  cases_of s r now buf =
      (bytes_eq buf (codes "rst"), (s, rst (why s.reset_reason) s.reset_reason ∷ [], []))
      ∷ (
        bytes_eq buf (codes "fault") || bytes_eq buf (codes "fault clear"),
        on_fault s (bytes_eq buf (codes "fault clear")),
      )
      ∷ (bytes_eq buf (codes "stack"), (s, stk r.stack_ss r.stack_run r.stack_ble ∷ [], []))
      ∷ (
        bytes_eq buf (codes "help on"),
        (
          record s { alert = tag_alert_raise N s.alert now },
          help_on (tag_alert_epoch N (tag_alert_raise N s.alert now)) ∷ [],
          [],
        ),
      )
      ∷ (
        bytes_eq buf (codes "help off"),
        (record s { alert = tag_alert_cancel N s.alert now }, help_cancel ∷ [], []),
      )
      ∷ (
        bytes_eq buf (codes "help"),
        (
          s,
          (if tag_alert_active N s.alert
                then help_on (tag_alert_epoch N s.alert)
                else help_off (tag_alert_epoch N s.alert))
              ∷ [],
          [],
        ),
      )
      ∷ (is_word buf (codes "pos"), on_pos s buf)
      ∷ (is_word buf (codes "dbg"), on_dbg s buf)
      ∷ (bytes_eq (take 3 buf) (codes "pwr"), on_pwr s r now buf)
      ∷ []

  -- The tests of `tag_cmd_on_rx` on the string in its buffer.
  unfoldable pub dispatch : Bool → Tag → Reports → ℕ → List ℕ → List ℕ → Answer
  unfolding first_case cases_of forward_cal
  dispatch cal_mode s r now buf raw =
      first_case (cases_of s r now buf) (forward_cal cal_mode s buf raw)

  -- `tag_cmd_on_rx`, with a clock reading for the calls that read it
  unfoldable pub tag_cmd_on_rx : Bool → Tag → Reports → ℕ → List ℕ → Answer
  unfolding command_of
  tag_cmd_on_rx cal_mode s r now raw = dispatch cal_mode s r now (command_of raw) raw
