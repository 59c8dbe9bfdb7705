-- ===== src/Alert/Latch/Entry.antt =====
-- One entry of the latch: what one message of its originator does to it.
use tag_testting.Common.{ℕ, ◌≡◌, ◌≢◌, ◌⊎◌, List, true, false, arith, newer8, bit_and}
use tag_testting.Alert.Message.{Alert, state_help}
use tag_testting.Alert.Latch.{LatchEntry, ignored, raised, refreshed, cleared, fresh, apply_entry}

-- An active alert has an epoch, and that epoch is not the cancelled one.
pub record Latched (e : LatchEntry) : Type 0 where
  pub known : e.active ≡ true → e.have_epoch ≡ true
  pub not_cancelled : e.active ≡ true → e.have_cancelled ≡ true → e.epoch ≢ e.last_cancelled
  pub cancel_known : e.have_cancelled ≡ true → e.have_epoch ≡ true

fresh-Latched : (eui : List ℕ) (now : ℕ) → Latched (fresh eui now)
fresh-Latched eui now = ground arith

-- Every message of the originator keeps an active alert apart from the cancelled epoch.
apply_entry-Latched :
    (e : LatchEntry) (a : Alert) (now : ℕ) → Latched e → Latched (apply_entry e a now).0
unfolding apply_entry
apply_entry-Latched e a now h = ground arith

-- The four results: a clearing message is a CANCEL, ends the alert and records its epoch; an
-- ignored one leaves the entry as it was; a refreshing one names the active epoch and moves only
-- the last-heard time; a raising one is the first or serially newer, and its epoch is then active.
pub apply_entry_lem :
    (e : LatchEntry) (a : Alert) (now : ℕ)
    → let (e', res) = apply_entry e a now in
      (res ≡ cleared)
        × (bit_and a.state state_help ≡ 0)
        × (e'.active ≡ false)
        × (e'.have_cancelled ≡ true)
        × (e'.last_cancelled ≡ a.epoch)
      ⊎ (res ≡ ignored) × (e' ≡ e)
      ⊎ (res ≡ refreshed)
        × (e.active ≡ true)
        × (a.epoch ≡ e.epoch)
        × (e' ≡ record e { last_heard_ms = now })
      ⊎ (res ≡ raised)
        × (e'.active ≡ true)
        × (e'.epoch ≡ a.epoch)
        × ((e.have_epoch ≡ false) ⊎ (newer8 a.epoch e.epoch ≡ true))
unfolding apply_entry
apply_entry_lem e a now = grind arith

-- A HELP.
abbrev pub IsHelp : Alert → Type 0
IsHelp a = bit_and a.state state_help ≢ 0

pub apply_entry-help :
    (e : LatchEntry) (a : Alert) (now : ℕ)
    → bit_and a.state state_help ≢ 0
    → let e' = (apply_entry e a now).0 in
      (e'.have_cancelled ≡ e.have_cancelled) × (e'.last_cancelled ≡ e.last_cancelled)
unfolding apply_entry
apply_entry-help e a now h = ground arith

pub apply_entry-stale :
    (e : LatchEntry) (a : Alert) (now : ℕ)
    → bit_and a.state state_help ≢ 0
    → e.have_cancelled ≡ true
    → a.epoch ≡ e.last_cancelled
    → apply_entry e a now ≡ (e, ignored)
unfolding apply_entry
apply_entry-stale e a now h c q = ground arith

pub apply_entry-cancel :
    (e : LatchEntry) (a : Alert) (now : ℕ)
    → bit_and a.state state_help ≡ 0
    → let e' = (apply_entry e a now).0 in (e'.have_cancelled ≡ true) × (e'.last_cancelled ≡ a.epoch)
unfolding apply_entry
apply_entry-cancel e a now h = ground arith
