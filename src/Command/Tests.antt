-- ===== src/Command/Tests.antt =====
-- The theorems on src/tag_cmd.c at concrete commands.
use tag_testting.Common.{
  ℕ, ◌≡◌, refl, true, false, none, List, [], ◌∷◌, ◌++◌, if◌then◌else◌, replicate, arith, bytes_eq,
}
use tag_testting.Storage.{Storage, storage_read}
use tag_testting.Storage.Memory.{memory, memory-IsLawful}
use tag_testting.Net.Tiers.{tier_defaults, get_tier_params}
use tag_testting.Alert.Core.{help, off, init}
use tag_testting.Alert.Persist.{tag_alert_init, restore, boot_core}
use tag_testting.Alert.Persist.Reboot.{Writes, Mirrors, underway}
use tag_testting.PosCfg.{defaults}
use tag_testting.PosCfg.Parsing.{number}
use tag_testting.Debug.Session.{fresh}
use tag_testting.Ble.{ble_log_init}
use tag_testting.Cal.Run.Command.{command_of, trim_eol, c_string}
use tag_testting.Command.{codes, cmd_tier, row, letter}
use tag_testting.Command.Handler.{Tag, Reports, help_on, tag_cmd_on_rx}
use tag_testting.Command.Tiers.{row_text, tier_command}
use tag_testting.Command.Survival.{run_commands, alert_survives_commands}
use tag_testting.Command.Help.{help_on_persists}

abbrev empty : Storage memory
empty = record { fs = λ id. none; fs_ready = true }

abbrev booted : Tag memory
booted = record {
  alert = tag_alert_init memory empty (1 ∷ 2 ∷ []);
  heights = defaults;
  dbg = record { enabled = false; quality_enabled = false; session = fresh };
  ble = ble_log_init true;
  tiers = tier_defaults;
  reset_reason = 0;
  fault = record { magic = 0; reason = 0; pc = 0; lr = 0; bfar = 0; thread = replicate 16 0 };
}

abbrev reports : Reports
reports = record {
  stack_ss = 100;
  stack_run = 100;
  stack_ble = 100;
  idle_window = none;
  rx_stats = none;
  sched = none;
  scan = (0, 0);
}

memory-Writes : Writes memory
memory-Writes f id item = refl

booted-Mirrors : Mirrors memory booted.alert
unfolding tag_alert_init storage_read restore boot_core init
booted-Mirrors = record { mounted = refl; epoch_stored = refl; active_stored = refl }

abbrev session : List (Reports × ℕ × List ℕ)
session = (reports, 100, codes "help on") ∷ (reports, 200, codes "pos z 300 95") ∷ []

alert_survives_commands_example :
    let t = (run_commands memory booted session).alert in
    let t' = tag_alert_init memory t.storage (1 ∷ 2 ∷ []) in
    (t'.core.epoch ≡ t.core.epoch)
    × (t'.core.state ≡ (if underway t.core.state then help else off))
    × (t'.core.next_tx_ms ≡ 0)
alert_survives_commands_example =
    alert_survives_commands memory memory-IsLawful memory-Writes booted empty (1 ∷ 2 ∷ []) session
      refl refl

quiet_command :
    (bytes_eq (command_of (codes "pwr adv off")) (codes "help on") ≡ false)
    × (bytes_eq (command_of (codes "pwr adv off")) (codes "help off") ≡ false)
unfolding command_of trim_eol c_string
quiet_command = (refl, refl)

help_on_persists_example :
    let (s', replies, orders) =
      tag_cmd_on_rx memory false booted reports 100 (codes "help on" ++ 10 ∷ []) in
    let t' = tag_alert_init memory s'.alert.storage (1 ∷ 2 ∷ []) in
    (s'.alert.core.state ≡ help)
    × (replies ≡ help_on s'.alert.core.epoch ∷ [])
    × (t'.core.state ≡ help)
    × (t'.core.epoch ≡ s'.alert.core.epoch)
help_on_persists_example =
    help_on_persists memory false booted reports 100 (10 ∷ []) (1 ∷ 2 ∷ []) memory-IsLawful
      memory-Writes booted-Mirrors (refl, tt)

-- `pwr tier f 30 0`: the skip is capped, and the cadence is at least 1.
tier_command_example :
    let (tbl', replies) = cmd_tier tier_defaults (row_text 102 1 0 0 (51 ∷ 48 ∷ []) (48 ∷ [])) in
    (replies ≡ row (letter 2) 25 1 ∷ [])
    × (get_tier_params tbl' 2 ≡ record { listen_skip = 25; range_every = 1 })
    × (get_tier_params tbl' 0 ≡ get_tier_params tier_defaults 0)
unfolding number
tier_command_example =
    tier_command tier_defaults 102 2 0 1 0 0 51 48 (48 ∷ []) [] refl (refl, (refl, tt)) (refl, tt)
      (omega arith) (omega arith) (omega arith) (omega arith)
