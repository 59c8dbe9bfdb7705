-- ===== src/Debug/Tests.antt =====
-- The theorems on src/pos_dbg.c at concrete sweeps.
use tag_testting.Common.{ℕ, ◌≡◌, refl, true, false, none, some, List, [], ◌∷◌, All, arith}
use tag_testting.Debug.Encode.{SweepFields}
use tag_testting.Debug.Session.{Dbg, Sweep, fresh}
use tag_testting.Debug.Host.{Heard, deaf, capture, selected, slot_eq, slots_eq, set_changes}
use tag_testting.Debug.Lines.{IsTypedSweep}
use tag_testting.Debug.Capture.{AllRight, switched_on, captured_anchors}
use tag_testting.Debug.Lossless.{HeardWhole, arriving, capture_complete}

abbrev fields : SweepFields
fields = record {
  seq = 3;
  dt_ms = 333;
  epoch = 1;
  mask = 5;
  tier = 2;
  moving = true;
  solved = false;
  r_cm = some (100 ∷ 65526 ∷ 300 ∷ 400 ∷ []);
  q = none;
  res_cm = 0xffff;
}

abbrev seen_at : ℕ → ℕ → Sweep
seen_at now first = record {
  now_ms = now;
  aid = some (first ∷ 2 ∷ 3 ∷ 255 ∷ []);
  ax_cm = some (0 ∷ 500 ∷ 500 ∷ 0 ∷ []);
  ay_cm = none;
  r_cm = some (100 ∷ 200 ∷ 300 ∷ 0 ∷ []);
  q = none;
  mask = 7;
  tier = 2;
  moving = false;
  solved = true;
  res_cm = 12;
}

seen_at-IsTypedSweep : (now first : ℕ) → IsTypedSweep (seen_at now first)
seen_at-IsTypedSweep now first = record {
  ax_word = omega arith;
  ay_word = tt;
  range_word = omega arith;
  mask_byte = omega arith;
  tier_byte = omega arith;
  res_word = omega arith;
}

abbrev off_at_boot : Dbg
off_at_boot = record { enabled = false; quality_enabled = false; session = fresh }

one_change : set_changes (selected (seen_at 0 1)) (seen_at 333 9 ∷ []) ≡ 1
unfolding set_changes slots_eq slot_eq
one_change = refl

captured_anchors_example : AllRight (
    capture
      (switched_on off_at_boot)
      deaf
      ((seen_at 0 1, true ∷ false ∷ []) ∷ (seen_at 333 9, []) ∷ []))
captured_anchors_example =
    captured_anchors off_at_boot (seen_at 0 1) (true ∷ false ∷ []) ((seen_at 333 9, []) ∷ [])
      (seen_at-IsTypedSweep 0 1) (seen_at-IsTypedSweep 333 9, tt) (omega (arith, one_change))

capture_complete_example :
    All
      (λ (t : Sweep × List Heard). HeardWhole t.0 t.1)
      (capture (switched_on off_at_boot) deaf (arriving (seen_at 0 1 ∷ seen_at 333 9 ∷ [])))
capture_complete_example =
    capture_complete off_at_boot deaf (seen_at 0 1 ∷ seen_at 333 9 ∷ [])
      (seen_at-IsTypedSweep 0 1, (seen_at-IsTypedSweep 333 9, tt))
