-- ===== src/Stats.antt =====
-- src/batt_window.c and src/rx_stats_core.c: the accumulators of readings, and the beacon
-- statistics.
pub mod Window
mod Tests
use tag_testting.Common.{
  ℕ, ◌+◌, ◌*◌, ◌/◌, ◌^◌, Bool, true, false, Option, none, some, ◌==◌, if◌then◌else◌, u32, sub32, ℤ,
  pos, ◌+ℤ◌, ◌-ℤ◌, ltb_ℤ, scale_ℤ, div_ℤ, signed32,
}

-- `struct batt_window`
pub record BattWindow : Type 0 where
  pub min_ma : ℤ
  pub max_ma : ℤ
  pub sum_ma : ℤ
  pub count : ℕ

-- `batt_window_reset`
abbrev pub reset : BattWindow
reset = record { min_ma = pos 0; max_ma = pos 0; sum_ma = pos 0; count = 0 }

-- `batt_window_add`, for sums in the range of `long`.
unfoldable pub add : BattWindow → ℤ → BattWindow
add w ma =
    let ranged = if w.count == 0 then record w { min_ma = ma; max_ma = ma } else record w {
      min_ma = if ltb_ℤ ma w.min_ma then ma else w.min_ma;
      max_ma = if ltb_ℤ w.max_ma ma then ma else w.max_ma;
    } in
    record ranged { sum_ma = w.sum_ma +ℤ ma; count = u32 (w.count + 1) }

-- The out parameters of `batt_window_get`.
pub record Reading : Type 0 where
  pub least : ℤ
  pub mean : ℤ
  pub greatest : ℤ
  pub readings : ℕ

-- `batt_window_get`
unfoldable pub get : BattWindow → Option Reading
get w =
    if w.count == 0
    then none
    else some (record {
      least = w.min_ma;
      mean = div_ℤ w.sum_ma w.count;
      greatest = w.max_ma;
      readings = w.count;
    })

-- `struct rx_stats_core`
pub record RxStats : Type 0 where
  pub on_win : BattWindow
  pub off_win : BattWindow
  pub prev_beacon_cyc : ℕ
  pub prev_valid : Bool
  pub miss_count : ℕ
  pub nominal_sf_cyc : ℕ
  pub cyc_per_sec : ℕ

-- `cyc_to_us`, for a frequency above 0.
unfoldable pub cyc_to_us : RxStats → ℤ → ℤ
cyc_to_us c d = div_ℤ (scale_ℤ 1000000 d) c.cyc_per_sec

-- `rx_stats_core_reset`
unfoldable pub stats_reset : ℕ → ℕ → RxStats
stats_reset nominal_sf_cyc cyc_per_sec = record {
  on_win = reset;
  off_win = reset;
  prev_beacon_cyc = 0;
  prev_valid = false;
  miss_count = 0;
  nominal_sf_cyc = nominal_sf_cyc;
  cyc_per_sec = cyc_per_sec;
}

-- The offset of a gap from the nearest whole number of superframes, at least one, for a superframe
-- above 0 whose half the gap leaves room for in an `int32_t`.
unfoldable pub fold_gap : ℤ → ℕ → ℤ
fold_gap delta sf =
    let nearest = div_ℤ (delta +ℤ pos (sf / 2)) sf in
    let n_sf = if ltb_ℤ nearest (pos 1) then pos 1 else nearest in delta -ℤ scale_ℤ sf n_sf

-- `rx_stats_core_beacon`, for a superframe below `2 ^ 31` cycles.
unfoldable pub beacon : RxStats → ℕ → ℕ → RxStats
unfolding add cyc_to_us fold_gap
beacon c arm_cyc now_cyc =
    let on = add c.on_win (cyc_to_us c (signed32 (sub32 now_cyc arm_cyc))) in
    let off = fold_gap (signed32 (sub32 now_cyc c.prev_beacon_cyc)) c.nominal_sf_cyc in
    record c {
      on_win = on;
      off_win = if c.prev_valid then add c.off_win (cyc_to_us c off) else c.off_win;
      prev_beacon_cyc = now_cyc;
      prev_valid = true;
    }

-- `rx_stats_core_miss`
unfoldable pub miss : RxStats → RxStats
miss c = record c { prev_valid = false; miss_count = u32 (c.miss_count + 1) }

-- The out parameters of `rx_stats_core_get`.
pub record RxReport : Type 0 where
  pub on_mean_ms : ℤ
  pub on_max_ms : ℤ
  pub off_min_us : ℤ
  pub off_max_us : ℤ
  pub beacons : ℕ
  pub misses : ℕ

-- The offsets of an accumulator, 0 and 0 while it is empty.
unfoldable pub offsets : Option Reading → ℤ × ℤ
offsets none = (pos 0, pos 0)
offsets (some r) = (r.least, r.greatest)

-- `rx_stats_core_get`
unfoldable pub report : RxStats → Option RxReport
unfolding get offsets
report c = elim (get c.on_win) [
  | none ↦ none
  | some on ↦ some (record {
    on_mean_ms = div_ℤ on.mean 1000;
    on_max_ms = div_ℤ on.greatest 1000;
    off_min_us = (offsets (get c.off_win)).0;
    off_max_us = (offsets (get c.off_win)).1;
    beacons = on.readings;
    misses = c.miss_count;
  })
]
