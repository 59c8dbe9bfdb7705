-- ===== src/Alert/Persist.antt =====
-- src/tag_alert.c: the tag's alert over the persisted epoch. Every function runs under one mutex, so
-- calls are whole steps; the wake-up of the runner is in Runner.
pub mod Reboot
use tag_testting.Common.{
  ℕ, ◌+◌, ◌*◌, ◌/◌, ◌^◌, Bool, true, false, not, ◌&&◌, Option, none, some, List, [], ◌∷◌, ◌==◌,
  if◌then◌else◌, get_or, length, u8, u16,
}
use tag_testting.Storage.{Nvs, Storage, storage_read, storage_write}
use tag_testting.Cal.{crc32}
use tag_testting.Alert.Message.{Alert, hop_unknown, ttl_init}
use tag_testting.Alert.Core.{
  AlertCore, AlertState, help, is_help, is_off, is_cancelling, init, raise, cancel, due, sent, Due,
}

abbrev pub alert_nvs_id : ℕ
alert_nvs_id = 3

-- `alert_record_crc`, of the two bytes before the field
unfoldable pub alert_record_crc : ℕ → ℕ → ℕ
alert_record_crc epoch active = u16 (crc32 (epoch ∷ active ∷ []))

-- The bytes of `struct alert_nvs_record`, little-endian as on the target.
unfoldable pub nvs_record : ℕ → ℕ → List ℕ
nvs_record epoch active =
    let crc = alert_record_crc epoch active in epoch ∷ active ∷ u8 crc ∷ u8 (crc / 2 ^ 8) ∷ []

-- `r.active`
abbrev pub active_byte : AlertState → ℕ
active_byte s = if is_help s then 1 else 0

-- The test of `tag_alert_init` on what `storage_read` gave: the epoch and whether to resume.
unfoldable pub restore : Option (List ℕ × ℕ) → ℕ × Bool
restore none = (0, false)
restore (some (r, got)) =
    if got == 4
      && alert_record_crc (get_or r 0 0) (get_or r 1 0) == get_or r 2 0 + 2 ^ 8 * get_or r 3 0
    then (get_or r 0 0, not (get_or r 1 0 == 0))
    else (0, false)

-- The core after `tag_alert_init`.
unfoldable pub boot_core : ℕ × Bool → AlertCore
unfolding init
boot_core (epoch, resume) =
    if resume
    then record (init epoch) { state = help; repeat_seq = 0; next_tx_ms = 0; armed = true }
    else init epoch

module _ (N : Nvs) where
  -- The static `core` and `tag_eui`, and the storage.
  pub record TagAlert : Type 0 where
    pub core : AlertCore
    pub tag_eui : List ℕ
    pub storage : Storage N

  -- `alert_persist_locked`; its result is not looked at
  unfoldable pub alert_persist_locked : TagAlert → TagAlert
  alert_persist_locked t = record t {
    storage =
        (storage_write N t.storage alert_nvs_id
          (nvs_record t.core.epoch (active_byte t.core.state))).0;
  }

  -- `tag_alert_init` after a reset, over the storage that is left and the device's EUI.
  unfoldable pub tag_alert_init : Storage N → List ℕ → TagAlert
  tag_alert_init storage eui = record {
    core = boot_core (restore (storage_read N storage alert_nvs_id 4));
    tag_eui = eui;
    storage = storage;
  }

  -- `tag_alert_raise`
  unfoldable pub tag_alert_raise : TagAlert → ℕ → TagAlert
  unfolding alert_persist_locked
  tag_alert_raise t now_ms =
      let (core', raised) = raise t.core now_ms in
      let t' = record t { core = core' } in if raised then alert_persist_locked t' else t'

  -- `tag_alert_cancel`
  unfoldable pub tag_alert_cancel : TagAlert → ℕ → TagAlert
  tag_alert_cancel t now_ms = record t { core = cancel t.core now_ms }

  -- `tag_alert_active`
  unfoldable pub tag_alert_active : TagAlert → Bool
  tag_alert_active t = is_help t.core.state

  -- `tag_alert_epoch`
  unfoldable pub tag_alert_epoch : TagAlert → ℕ
  tag_alert_epoch t = t.core.epoch

  -- The message that `tag_alert_frame_due` fills in; `NAN` stands for a position that is not known.
  unfoldable pub frame_of : TagAlert → Due → ℕ → ℕ → Option (ℕ × ℕ) → Alert
  frame_of t d short_addr soc pos = record {
    state = d.state_out;
    epoch = d.epoch_out;
    repeat_seq = d.rep_out;
    sender_hop = hop_unknown;
    ttl = ttl_init;
    orig_eui = t.tag_eui;
    orig_addr = short_addr;
    batt_soc = soc;
    last_x = elim pos [ none ↦ 0x7fc0_0000 | some (x, y) ↦ x ];
    last_y = elim pos [ none ↦ 0x7fc0_0000 | some (x, y) ↦ y ];
  }

  -- `tag_alert_frame_due`, with the cached battery charge and the last position.
  unfoldable pub tag_alert_frame_due :
      TagAlert → ℕ → ℕ → ℕ → Option (ℕ × ℕ) → TagAlert × Option Alert
  unfolding frame_of
  tag_alert_frame_due t short_addr now_ms soc pos =
      let (core', d) = due t.core now_ms in
      let t' = record t { core = core' } in
      elim d [ none ↦ (t', none) | some frame ↦ (t', some (frame_of t' frame short_addr soc pos)) ]

  -- `tag_alert_sent`
  unfoldable pub tag_alert_sent : TagAlert → ℕ → TagAlert
  unfolding alert_persist_locked
  tag_alert_sent t now_ms =
      let core' = sent t.core now_ms in
      let t' = record t { core = core' } in
      if is_cancelling t.core.state && is_off core'.state then alert_persist_locked t' else t'
