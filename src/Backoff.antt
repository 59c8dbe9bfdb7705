-- ===== src/Backoff.antt =====
-- src/scan_backoff_core.c: the ladder of intervals between coverage probes in SCAN.
pub mod Ladder
mod Tests
use tag_testting.Common.{
  ℕ, ◌+◌, ◌-◌, ◌*◌, List, [], ◌∷◌, Bool, true, false, ltb, if◌then◌else◌, get_or, u8,
}

abbrev pub rungs : ℕ
rungs = 6

-- `rung_ms`
abbrev pub rung_ms : List ℕ
rung_ms =
    (10 * 1000)
    ∷ (30 * 1000)
    ∷ (2 * 60 * 1000)
    ∷ (5 * 60 * 1000)
    ∷ (15 * 60 * 1000)
    ∷ (30 * 60 * 1000)
    ∷ []

-- `struct scan_backoff`
pub record ScanBackoff : Type 0 where
  pub rung : ℕ
  pub alert_pinned : Bool

-- `scan_backoff_reset`
unfoldable pub reset : ScanBackoff → ScanBackoff
reset b = record b { rung = 0 }

-- `scan_backoff_fail`
unfoldable pub fail : ScanBackoff → ScanBackoff
fail b =
    if b.alert_pinned
    then b
    else if ltb b.rung (rungs - 1)
    then record b { rung = u8 (b.rung + 1) }
    else b

-- `scan_backoff_motion`
unfoldable pub motion : ScanBackoff → ScanBackoff
motion b = record b { rung = 0 }

-- `scan_backoff_alert`
unfoldable pub alert : ScanBackoff → Bool → ScanBackoff
alert b active =
    let b' = record b { alert_pinned = active } in if active then record b' { rung = 0 } else b'

-- `scan_backoff_next_ms`
unfoldable pub next_ms : ScanBackoff → ℕ
next_ms b = let r = if ltb b.rung rungs then b.rung else rungs - 1 in get_or rung_ms r 0

-- `scan_backoff_rung`
unfoldable pub rung_of : ScanBackoff → ℕ
rung_of b = b.rung
