-- ===== src/Command/Survival.antt =====
-- Commands of src/tag_cmd.c between two resets: what they do to the alert and to the flash that it
-- shares with the heights.
use tag_testting.Common.{
  ℕ, ◌≡◌, ◌≢◌, refl, sym, ◌∙◌, ap, Bool, true, false, Option, none, some, List, [], ◌∷◌,
  if◌then◌else◌, drop, bytes_eq, arith, pos, ℤ,
}
use tag_testting.Storage.{Nvs, IsLawful, Storage}
use tag_testting.Storage.Laws.{read-storage_write_ne, storage_write-ready}
use tag_testting.Alert.Core.{help, off}
use tag_testting.Alert.Persist.{TagAlert, alert_nvs_id, restore, tag_alert_init}
use tag_testting.Alert.Persist.Reboot.{
  Mirrors, Writes, found, underway, raise-Mirrors, cancel-Mirrors, boot-Mirrors, reset-Mirrors,
}
use tag_testting.PosCfg.{PosCfg, pos_cfg_nvs_id, pos_cfg_set, to_bytes, record_of, signed16, bits16}
use tag_testting.PosCfg.Command.{pos_cfg_on_cmd, answer, set_heights, parse_heights, skip_spaces}
use tag_testting.Cal.Run.Command.{command_of}
use tag_testting.Command.{codes}
use tag_testting.Command.Cases.{dispatch_cases}
use tag_testting.Command.Handler.{Tag, Reports, on_pos, tag_cmd_on_rx}

true-ne-false : true ≢ false
true-ne-false h = cc

module _ (N : Nvs) where
  -- What the alert needs of the flash is as it was.
  abbrev SparesAlert : Storage N → Storage N → Type 0
  SparesAlert s s' = (s'.fs_ready ≡ true) × (found N s' ≡ found N s)

  -- The heights are kept under another id than the alert.
  set_spares :
      IsLawful N
      → (c : PosCfg N) (a t : ℤ) → c.storage.fs_ready ≡ true
      → SparesAlert c.storage (pos_cfg_set N c a t).0.storage
  unfolding pos_cfg_set
  set_spares L c a t h =
      let item = to_bytes (record_of N a t) in
      ground (
        arith,
        storage_write-ready N L c.storage h pos_cfg_nvs_id item,
        ap restore (
            read-storage_write_ne N L c.storage h pos_cfg_nvs_id alert_nvs_id 4 item
              (λ e. absurd (omega (arith, e)))),
      )

  set_heights_spares :
      IsLawful N
      → (c : PosCfg N) (a t : ℕ) → c.storage.fs_ready ≡ true
      → SparesAlert c.storage (set_heights N c a t).0.storage
  unfolding set_heights
  set_heights_spares L c a t h =
      ground (arith, set_spares L c (signed16 (bits16 (pos a))) (signed16 (bits16 (pos t))) h)

  answer_spares :
      IsLawful N
      → (c : PosCfg N) (o : Option (ℕ × ℕ)) → c.storage.fs_ready ≡ true
      → SparesAlert c.storage (answer N c o).0.storage
  unfolding answer
  answer_spares L c none h = (h, refl)
  answer_spares L c (some (a, t)) h = set_heights_spares L c a t h

  command_spares :
      IsLawful N
      → (c : PosCfg N) (cmd : List ℕ) → c.storage.fs_ready ≡ true
      → SparesAlert c.storage (pos_cfg_on_cmd N c cmd).0.storage
  unfolding pos_cfg_on_cmd
  command_spares L c cmd h =
      ground (arith, answer_spares L c (parse_heights (drop 2 (skip_spaces (drop 3 cmd)))) h)

  on_pos-Mirrors :
      IsLawful N
      → (s : Tag N) (buf : List ℕ) → Mirrors N s.alert
      → Mirrors N (on_pos N s buf).0.alert
  unfolding on_pos
  on_pos-Mirrors L s buf m =
      let c : PosCfg N = record { active = s.heights; storage = s.alert.storage } in
      let spared = command_spares L c buf m.mounted in
      record {
        mounted = spared.0;
        epoch_stored = ap (λ (p : ℕ × Bool). p.0) spared.1 ∙ m.epoch_stored;
        active_stored = ap (λ (p : ℕ × Bool). p.1) spared.1 ∙ m.active_stored;
      }

  -- The commands that arrive in the build without the calibration mode, whose start-up restores the
  -- alert, each with the reports and the clock of its time.
  unfoldable pub run_commands : Tag N → List (Reports × ℕ × List ℕ) → Tag N
  run_commands s [] = s
  run_commands s ((r, now, raw) ∷ cs) = run_commands (tag_cmd_on_rx N false s r now raw).0 cs

  commands-Mirrors :
      IsLawful N
      → Writes N
      → (s : Tag N) (cs : List (Reports × ℕ × List ℕ)) → Mirrors N s.alert
      → Mirrors N (run_commands s cs).alert
  unfolding run_commands tag_cmd_on_rx
  commands-Mirrors L w s [] m = m
  commands-Mirrors L w s ((r, now, raw) ∷ cs) m =
      commands-Mirrors L w (tag_cmd_on_rx N false s r now raw).0 cs (
        dispatch_cases N (λ a. Mirrors N a.0.alert) s (λ a e. rw e m) false r now (command_of raw)
          raw (λ _ a e. rw e (raise-Mirrors N L w s.alert now m))
          (λ _ a e. rw e (cancel-Mirrors N s.alert now m)) (on_pos-Mirrors L s (command_of raw) m))

  -- On a flash that takes every write, in the build without the calibration mode: whatever bytes
  -- arrive as commands from one reset to the next, also those that store heights in the same flash, and
  -- while no alert frame is sent, the tag comes back with the epoch that its alert had, calling for
  -- help again if an alert was under way, and otherwise silent.
  pub alert_survives_commands :
      IsLawful N
      → Writes N
      → (s : Tag N) (storage : Storage N) (eui : List ℕ) (cs : List (Reports × ℕ × List ℕ))
      → storage.fs_ready ≡ true
      → s.alert ≡ tag_alert_init N storage eui
      → let t = (run_commands s cs).alert in
        let t' = tag_alert_init N t.storage eui in
        (t'.core.epoch ≡ t.core.epoch)
        × (t'.core.state ≡ (if underway t.core.state then help else off))
        × (t'.core.next_tx_ms ≡ 0)
  alert_survives_commands L w s storage eui cs h boot =
      reset-Mirrors N (run_commands s cs).alert eui
        (commands-Mirrors L w s cs (rw boot (boot-Mirrors N storage eui h)))

  -- No command but `help on` and `help off` moves the alert: any other bytes leave its state, epoch
  -- and schedule as they are.
  pub only_help_moves :
      (cal_mode : Bool) (s : Tag N) (r : Reports) (now : ℕ) (raw : List ℕ)
      → bytes_eq (command_of raw) (codes "help on") ≡ false
      → bytes_eq (command_of raw) (codes "help off") ≡ false
      → (tag_cmd_on_rx N cal_mode s r now raw).0.alert.core ≡ s.alert.core
  unfolding tag_cmd_on_rx on_pos
  only_help_moves cal_mode s r now raw calm steady =
      dispatch_cases N (λ a. a.0.alert.core ≡ s.alert.core) s
        (λ a e. ap (λ (t : TagAlert N). t.core) e) cal_mode r now (command_of raw) raw
        (λ h a e. absurd (true-ne-false (sym h ∙ calm)))
        (λ h a e. absurd (true-ne-false (sym h ∙ steady))) refl
