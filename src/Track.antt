-- ===== src/Track.antt =====
-- src/beacon_track_core.c: the adaptive receive window of consecutive beacons.
pub mod Converge
mod Tests
use tag_testting.Common.{
  ℕ, ◌+◌, ◌*◌, ◌^◌, Bool, true, false, ◌&&◌, not, ltb, leb, ◌==◌, if◌then◌else◌, u16, u32, sub32, ℤ,
  pos, negsuc, ◌+ℤ◌, ◌-ℤ◌, ltb_ℤ, leb_ℤ, div_ℤ, signed32, word32,
}

-- `struct beacon_track`
pub record BeaconTrack : Type 0 where
  pub period_est_ms : ℕ
  pub last_beacon_ms : ℕ
  pub have_last : Bool
  pub warmup_count : ℕ
  pub guard_ms : ℕ
  pub warmup_n : ℕ
  pub ema_shift : ℕ
  pub tracking : Bool

-- `beacon_track_reset`
unfoldable pub reset : ℕ → ℕ → ℕ → ℕ → BeaconTrack
reset period_seed_ms guard_ms warmup_n ema_shift = record {
  period_est_ms = period_seed_ms;
  last_beacon_ms = 0;
  have_last = false;
  warmup_count = 0;
  guard_ms = guard_ms;
  warmup_n = warmup_n;
  ema_shift = ema_shift;
  tracking = false;
}

-- The out parameters of `beacon_track_plan`.
pub record Window : Type 0 where
  pub narrow : Bool
  pub arm_at_ms : ℕ
  pub window_ms : ℕ

-- `beacon_track_plan`
unfoldable pub plan : BeaconTrack → Window
plan c =
    if c.tracking && c.have_last
    then record {
      narrow = true;
      arm_at_ms = sub32 (u32 (c.last_beacon_ms + c.period_est_ms)) c.guard_ms;
      window_ms = u32 (2 * c.guard_ms);
    }
    else record { narrow = false; arm_at_ms = 0; window_ms = 0 }

-- `a == 0`
abbrev pub is_zero : ℤ → Bool
is_zero a = leb_ℤ a (pos 0) && leb_ℤ (pos 0) a

-- The correction of `beacon_track_beacon`: the error over the smoothing, or one where that is 0.
-- The shift is below 31 and the error fits an `int32_t`.
unfoldable pub correction : ℤ → ℕ → ℤ
correction err ema_shift =
    let quotient = div_ℤ err (2 ^ ema_shift) in
    if is_zero quotient && not (is_zero err)
    then (if ltb_ℤ (pos 0) err then pos 1 else negsuc 0)
    else quotient

-- The estimate after a beacon that is `gap` after the last one.
unfoldable pub smoothed : BeaconTrack → ℤ → ℕ
unfolding correction
smoothed c gap =
    let period = signed32 c.period_est_ms in
    word32 (period +ℤ correction (gap -ℤ period) c.ema_shift)

-- The end of `beacon_track_beacon`: the reference and the warm-up.
unfoldable pub warm : BeaconTrack → ℕ → BeaconTrack
warm c now_ms =
    let counted =
      if ltb c.warmup_count c.warmup_n then u16 (c.warmup_count + 1) else c.warmup_count in
    record c {
      last_beacon_ms = now_ms;
      have_last = true;
      warmup_count = counted;
      tracking = if leb c.warmup_n counted then true else c.tracking;
    }

-- `beacon_track_beacon`
unfoldable pub beacon : BeaconTrack → ℕ → BeaconTrack
unfolding smoothed warm
beacon c now_ms =
    let gap = signed32 (sub32 now_ms c.last_beacon_ms) in
    warm (if c.have_last then record c { period_est_ms = smoothed c gap } else c) now_ms

-- `beacon_track_miss`
unfoldable pub miss : BeaconTrack → BeaconTrack
miss c = record c { tracking = false; warmup_count = 0; have_last = false }
