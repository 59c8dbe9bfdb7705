-- ===== src/Lib.antt =====
-- Models and proofs for the C code of the UWB tag in this repository (directory src): the loop over
-- the superframes, the cores that hold the tag's decisions and data, the modules that keep an alert, a
-- calibration and the heights over a reset, and the button, the commands and the logs around them.
--
-- The runner (src/uwb_net_runner.c) hears a beacon, hands it to the network layer and carries out the
-- action word that comes back. Around that step it asks the beacon schedule when to listen, the scan
-- backoff how long to sleep out of coverage, the alert module whether a HELP is due, the calibration
-- whether it may range, the frame module to build and parse what goes over the air, and the radio
-- owner whether to give up the radio.
--
--   Runner   src/uwb_net_runner.c: its state, what one superframe reads (`Turn`) and does (`Effect`),
--            and the steps 0 and 1 in Runner, the beacon window in Runner.Listen, the actions in
--            Runner.Exchange, a whole superframe in Runner.Superframe; the anchor pool in
--            Runner.Pool, over a parameter for the `float` scores
--   Net      src/uwb_net.c, uwb_net.h: `uwb_net_handle` (Net.Machine), the tier table (Net.Tiers), the
--            sweep gate (Net.Gate), the tier filter (Net.Filter) and the action words (Net.Act)
--   Frame    src/uwb_frame_802_15_4z.c: the builders and parsers, with the bytes in Frame.Bytes, the
--            header in Frame.Header, DISC, MPOL and RESP in Frame.Ranging, BEACON in Frame.Beacon,
--            JOIN, GRANT, KEEPALIVE and RELEASE in Frame.Seat, POS and ALERT in Frame.Reports
--   Alert    src/tag_alert_core.c (Alert.Core) and src/alert_relay.c: the duplicate cache
--            (Alert.Dedup), the relay decision (Alert.Relay), the gateway's latch (Alert.Latch);
--            src/tag_alert.c over the stored epoch (Alert.Persist)
--   Owner    src/uwb_radio_owner.c, with its threads and the broadcasts that wake them as a step
--            relation in Owner.System
--   Sched    src/beacon_sched_core.c: the period estimate and the window of skipped superframes
--   Track    src/beacon_track_core.c: the smoothed estimate and the window of consecutive beacons
--   Backoff  src/scan_backoff_core.c
--   Stats    src/batt_window.c and src/rx_stats_core.c
--   Charge   src/batt_curve.c and src/tag_ui_color.c
--   Cal      src/cal_math.c and src/cal_run_math.c, with the stored record in Cal.Record; src/cal.c in
--            Cal.Store, src/cal_run.c in Cal.Run and the console of both in Cal.Run.Command
--   Debug    src/pos_dbg.c: the records in Debug.Encode, the session and its commands in Debug.Session;
--            Debug.Decode reads a record by the layouts of src/pos_dbg.h, and Debug.Host is a listener
--            that loses some of them
--   PosCfg   src/pos_cfg.c: the two heights over the storage, with the command in PosCfg.Command
--   Ui       src/tag_ui.c: the interrupt handler of the button and a turn of the thread
--   Ble      src/ble_log.c: the advertising window and the retries of a send
--   Fault    src/wdt.c: the record of a fatal error that a reset keeps, store by store
--   Command  src/tag_cmd.c: the dispatcher of the commands in Command.Handler, `pwr tier` in Command; the
--            build with the calibration mode and the one without are an argument
--   Storage  src/storage.c over Zephyr's NVS, which is a parameter (`Nvs`) with the laws `IsLawful`;
--            Storage.Memory is a flash that meets them
--   Common   C arrays, tests, words, integers and masks
--
-- A function that changes a struct returns the new record; out parameters and the result are a pair
-- or a record. An array is a list of its elements. Unsigned words are natural numbers with `u8`, `u16`
-- and `u32` where C wraps, and `sub32` for a difference; `int32_t` values are integers. A `float` is
-- its 32 bits, since the frames only carry it. A buffer that may be NULL is an `Option`. The static
-- tier table of the network layer is an argument. Every loop runs over a list or a fixed count, so no
-- function takes fuel.
--
-- One superframe of the runner is a function of its state and of what it reads from outside: clock
-- readings, receptions, random numbers, the outcome of a handover, and the number of anchors that
-- discovery found or a sweep ranged. Its result is the next state and the list of what it did to the
-- radio. Calls from other threads (a press of the button, an edge of the motion sensor) come between
-- two superframes; those that raise or cancel the alert may also land in one, between the test of the
-- alert and its frame, or while the frame is sent. The ranges of a calibration pass are an argument in the same way. A turn of the
-- button's thread reads a list of rounds, each the clock and the edges since the round before; the
-- Bluetooth controller's answers and the records that a listener loses are inputs too.
--
-- Not modelled: in the runner, the position that a sweep gives and the register accesses of the
-- driver; the single range exchange of src/cal_run.c, the ranging initiator, the radio
-- configuration, the diagnostics, the sensors and the tag reader, which are calls of the driver and
-- of Zephyr, as are the pins, the lamp and the Bluetooth stack below src/tag_ui.c and src/ble_log.c;
-- the texts of replies, which are values that hold their data; the position solver and filter
-- (src/pos_solver.c, src/pos_ekf.c, src/pos_residual.c) and the conversions `pos_dbg_m_to_cm` and
-- `pos_cfg_dz_m`, which are floating-point code; the vendored driver (Shared) and the port
-- (platform). The flag that `uwb_radio_owner_set_unmanaged` sets is an argument.
pub mod Common
pub mod Storage
pub mod Net
pub mod Alert
pub mod Runner
pub mod Sched
pub mod Frame
pub mod Owner
pub mod Backoff
pub mod Track
pub mod Charge
pub mod Debug
pub mod PosCfg
pub mod Ui
pub mod Ble
pub mod Fault
pub mod Command
pub mod Stats
pub mod Cal
