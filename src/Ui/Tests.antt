-- ===== src/Ui/Tests.antt =====
-- The theorems on src/tag_ui.c at concrete edges of the button.
use tag_testting.Common.{
  ◌+◌, ◌≡◌, refl, true, false, none, some, [], ◌∷◌, arith, pos, leb_ℤ, signed32, sub32, u32,
}
use tag_testting.Storage.Memory.{memory}
use tag_testting.Alert.Persist.{TagAlert, tag_alert_init, tag_alert_active}
use tag_testting.Ui.{Ui, raised, cancelled, idle, requeue, ui_fn, perform, display}
use tag_testting.Ui.Edges.{IsReady, seen_to, event, at, quiet}
use tag_testting.Ui.Gestures.{double_rounds, long_rounds, double_press_raises, long_press_cancels}
use tag_testting.Ui.Missed.{silence, bounced_release_cancels, requeued_tap_cancels}

abbrev resting : Ui
resting = record { last_edge_ms = 1000; press_q = [] }

resting-IsReady : IsReady resting 5000
unfolding sub32
resting-IsReady = record { empty = refl; settled = omega arith }

abbrev alert : TagAlert memory
alert = tag_alert_init memory (record { fs = λ id. none; fs_ready = true }) (1 ∷ 2 ∷ [])

double_press_raises_example :
    (ui_fn resting (double_rounds 5000 1 101 202 100 200 [])
      ≡ some (raised, seen_to 5000 200 [], []))
    × (tag_alert_active memory (perform memory alert raised 5205) ≡ true)
double_press_raises_example =
    double_press_raises memory alert resting 5000 1 101 202 100 200 5205 [] (omega arith)
      resting-IsReady (omega arith) (omega arith) (omega arith) (omega arith) (omega arith)

long_press_cancels_example :
    (ui_fn resting (long_rounds 5000 1 350 (351 ∷ []) 3001 3500 3490 [])
      ≡ some (cancelled, seen_to 5000 3490 [], []))
    × (tag_alert_active memory (perform memory alert cancelled 8010) ≡ false)
long_press_cancels_example =
    long_press_cancels memory alert resting 5000 1 350 3001 3500 3490 8010 (351 ∷ []) []
      (omega arith) resting-IsReady (omega arith) (omega arith) (omega arith) (omega arith)
      (omega arith)

bounced_release_cancels_example :
    ui_fn resting
      (at 5000 1 ((0, true) ∷ (20, false) ∷ []) ∷ silence 5000 350 (351 ∷ []) 3001 3501 [])
    ≡ some (cancelled, seen_to 5000 20 [], [])
bounced_release_cancels_example =
    bounced_release_cancels resting 5000 20 1 350 3001 3501 (351 ∷ []) [] (omega arith)
      resting-IsReady (omega arith) (omega arith) (omega arith) (omega arith)

early : leb_ℤ (signed32 (sub32 9000 (u32 (5000 + 200)))) (pos 0) ≡ false
unfolding sub32
early = refl

requeued_tap_cancels_example :
    (display 9000 resting (at 5000 200 ((0, true) ∷ (100, false) ∷ []) ∷ [])
      ≡ some (some (event 5000 0 true), seen_to 5000 100 (event 5000 100 false ∷ []), []))
    × (ui_fn
          (requeue (some (event 5000 0 true)) (seen_to 5000 100 (event 5000 100 false ∷ [])))
          (quiet 5000 201 ∷ [])
        ≡ some (idle, seen_to 5000 100 (event 5000 0 true ∷ []), []))
    × (ui_fn
          (seen_to 5000 100 (event 5000 0 true ∷ []))
          (quiet 5000 202 ∷ silence 5000 352 (353 ∷ []) 3001 3501 [])
        ≡ some (cancelled, seen_to 5000 100 [], []))
requeued_tap_cancels_example =
    requeued_tap_cancels resting 5000 100 9000 200 201 202 352 3001 3501 (353 ∷ []) [] [] []
      (omega arith) resting-IsReady (omega arith) (omega arith) early (omega arith) (omega arith)
      (omega arith)
