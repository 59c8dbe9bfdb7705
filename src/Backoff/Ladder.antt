-- ===== src/Backoff/Ladder.antt =====
-- The ladder's shape: the rung after any calls, and the interval that it gives.
use tag_testting.Common.{
  ℕ, zero, suc, ◌+◌, ◌≤◌, ◌<◌, ◌≡◌, List, [], ◌∷◌, Bool, true, false, min, arith,
}
use tag_testting.Backoff.{ScanBackoff, rungs, reset, fail, motion, alert, next_ms}

-- One call of the interface.
data Op : Type 0 where
  resets fails moves : Op
  alerts : Bool → Op

apply : Op → ScanBackoff → ScanBackoff
apply resets b = reset b
apply fails b = fail b
apply moves b = motion b
apply (alerts a) b = alert b a

run : List Op → ScanBackoff → ScanBackoff
run [] b = b
run (o ∷ os) b = run os (apply o b)

record IsLadder (b : ScanBackoff) : Type 0 where
  on_ladder : b.rung < rungs
  pinned_low : b.alert_pinned ≡ true → b.rung ≡ 0

apply-IsLadder : (o : Op) (b : ScanBackoff) → IsLadder b → IsLadder (apply o b)
unfolding apply reset fail motion alert
apply-IsLadder resets b h = ground arith
apply-IsLadder fails b h = ground arith
apply-IsLadder moves b h = ground arith
apply-IsLadder (alerts a) b h = ground arith

-- Any sequence of calls keeps the rung on the ladder, and at the bottom while an alert pins it.
run-IsLadder : (os : List Op) (b : ScanBackoff) → IsLadder b → IsLadder (run os b)
unfolding run
run-IsLadder [] b h = h
run-IsLadder (o ∷ os) b h = run-IsLadder os (apply o b) (apply-IsLadder o b h)

unfoldable pub failures : ℕ → ScanBackoff → ScanBackoff
failures zero b = b
failures (suc n) b = failures n (fail b)

-- `n` failed probes without an alert climb `n` rungs, up to the last one, and stay there.
pub rung-failures :
    (n : ℕ) (b : ScanBackoff)
    → b.alert_pinned ≡ false
    → b.rung < rungs
    → ((failures n b).rung ≡ min (b.rung + n) 5) × ((failures n b).alert_pinned ≡ false)
unfolding failures fail
rung-failures zero b p h = ground arith
rung-failures (suc n) b p h = ground (arith, rung-failures n (fail b))

-- A failed probe never shortens the wait, lengthens it below the last rung without an alert, and
-- the wait is never below 10 s nor above 30 min, whatever the rung.
fail-next_ms :
    (b : ScanBackoff)
    → (next_ms b ≤ next_ms (fail b))
      × (b.alert_pinned ≡ false → b.rung < 5 → next_ms b < next_ms (fail b))
      × (10000 ≤ next_ms b)
      × (next_ms b ≤ 1800000)
unfolding next_ms fail
fail-next_ms b = ground arith
