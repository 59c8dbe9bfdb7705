-- ===== src/Alert/Tests.antt =====
-- The theorems on src/alert_relay.c and src/tag_alert_core.c for one HELP and its CANCEL.
use tag_testting.Common.{
  ℕ, ◌+◌, ◌≡◌, refl, List, [], ◌∷◌, inl, inr, true, false, none, length, get_or, arith, u32,
  if◌then◌else◌,
}
use tag_testting.Storage.{Storage}
use tag_testting.Storage.Memory.{memory, memory-IsLawful}
use tag_testting.Alert.Persist.{tag_alert_init}
use tag_testting.Alert.Persist.Reboot.{AlertOp, run_ops, underway, alert_survives_reset}
use tag_testting.Alert.Message.{Alert, ttl_init}
use tag_testting.Alert.Core.{AlertCore, off, help}
use tag_testting.Alert.Dedup.{Entry, blank, admit, search_from, note}
use tag_testting.Alert.Dedup.Remember.{admit_suppresses, admit_all}
use tag_testting.Alert.Latch.{
  LatchEntry, ignored, apply, apply_entry, find_or_alloc, allocate, find_from,
}
use tag_testting.Alert.Latch
use tag_testting.Alert.Latch.Stale.{stale_help_ignored, apply_all}

abbrev call_of : ℕ → ℕ → Alert
call_of state epoch = record {
  state = state;
  epoch = epoch;
  repeat_seq = 0;
  sender_hop = 3;
  ttl = ttl_init;
  orig_eui = 1 ∷ 2 ∷ 3 ∷ 4 ∷ 5 ∷ 6 ∷ 7 ∷ 8 ∷ [];
  orig_addr = 0x1001;
  batt_soc = 80;
  last_x = 0;
  last_y = 0;
}

abbrev calling : AlertCore
calling = record {
  state = help;
  epoch = 7;
  repeat_seq = 2;
  cancels_left = 0;
  next_tx_ms = 1000;
  armed = true;
}

-- The same call 30 s less 1 ms later, with another one between.
admit_suppresses_example :
    (admit
      (admit_all 100 (admit (blank ∷ blank ∷ []) (call_of 1 7) 100).0 ((call_of 1 8, 200) ∷ []))
      (call_of 1 7)
      (u32 (100 + 29999))).1
    ≡ false
unfolding admit search_from note
admit_suppresses_example =
    admit_suppresses (blank ∷ blank ∷ []) (call_of 1 7) 100 29999 ((call_of 1 8, 200) ∷ [])
      (omega arith) (omega arith) (omega arith) refl (omega arith, (1, omega arith, refl), tt)

abbrev one_seen : List Entry
one_seen =
    record {
      eui = 1 ∷ 2 ∷ 3 ∷ 4 ∷ 5 ∷ 6 ∷ 7 ∷ 8 ∷ [];
      epoch = 6;
      state = 1;
      repeat_seq = 0;
      seen_ms = 50;
      used = true;
    }
    ∷ blank
    ∷ []

-- A call of another tag.
abbrev other_call : Alert
other_call = record (call_of 1 3) { orig_eui = 9 ∷ 2 ∷ 3 ∷ 4 ∷ 5 ∷ 6 ∷ 7 ∷ 8 ∷ [] }

abbrev two_slots : List LatchEntry
two_slots = Latch.blank ∷ Latch.blank ∷ []

abbrev heard_twice : List LatchEntry
heard_twice = (apply (apply two_slots (call_of 0 7) 10).0 (call_of 1 6) 20).0

second_unused : (length heard_twice ≡ 2) × ((get_or heard_twice 1 Latch.blank).used ≡ false)
unfolding apply find_or_alloc allocate find_from Latch.note apply_entry
second_unused = (refl, refl)

stale_help_ignored_example :
    let es' =
      apply_all (apply two_slots (call_of 0 7) 10).0 ((call_of 1 6, 20) ∷ (other_call, 25) ∷ []) in
    apply es' (call_of 1 7) 30 ≡ (es', ignored)
stale_help_ignored_example =
    stale_help_ignored two_slots (call_of 0 7) (call_of 1 7) 10 30
      ((call_of 1 6, 20) ∷ (other_call, 25) ∷ []) (omega arith) refl (λ e. cc) refl refl
      (inl (refl, λ e. cc), (inr (refl, 1, omega (arith, second_unused.0), second_unused.1), tt))

abbrev own_eui : List ℕ
own_eui = 1 ∷ 2 ∷ 3 ∷ 4 ∷ 5 ∷ 6 ∷ 7 ∷ 8 ∷ []

abbrev blank_flash : Storage memory
blank_flash = record { fs = λ id. none; fs_ready = true }

-- A HELP that is called, sent once, and cancelled.
abbrev day : List AlertOp
day =
    AlertOp.raises 1000
    ∷ AlertOp.asks 0x1001 1200 80 none
    ∷ AlertOp.sends 1200
    ∷ AlertOp.cancels 5000
    ∷ []

alert_survives_reset_example :
    let t = run_ops memory (tag_alert_init memory blank_flash own_eui) day in
    let t' = tag_alert_init memory t.storage own_eui in
    (t'.core.epoch ≡ t.core.epoch)
    × (t'.core.state ≡ (if underway t.core.state then help else off))
    × (t'.core.next_tx_ms ≡ 0)
alert_survives_reset_example =
    alert_survives_reset memory memory-IsLawful (λ f id item. refl) blank_flash own_eui day refl
