-- ===== src/Track/Converge.antt =====
-- The estimate and the window of beacons that come at a constant period.
use tag_testting.Common.{
  ℕ, zero, suc, ◌+◌, ◌-◌, ◌*◌, ◌^◌, ◌≤◌, ◌<◌, ◌≡◌, refl, true, arith, u32, sub32, sub32-add, min, ℤ,
  pos, negsuc, ◌+ℤ◌, ◌-ℤ◌, div_ℤ, signed32, word32, pos_part, neg_part,
}
use native.Mathlib.Nat.{div-le_self, zero-div}
use tag_testting.Track.{BeaconTrack, plan, correction, smoothed, warm, beacon, miss}

-- The distance of two numbers.
abbrev pub dist : ℕ → ℕ → ℕ
dist a b = (a - b) + (b - a)

-- `c` takes `p` nearer to `g`, and not past it.
Corrects : ℕ → ℕ → ℤ → Type 0
Corrects p g c =
    (p < g → (neg_part c ≡ 0) × (0 < pos_part c) × (p + pos_part c ≤ g))
    × (g < p → (pos_part c ≡ 0) × (0 < neg_part c) × (g + neg_part c ≤ p))
    × (p ≡ g → (pos_part c ≡ 0) × (neg_part c ≡ 0))

correction-Corrects :
    (p g k : ℕ) → p < 2 ^ 31 → g < 2 ^ 31 → Corrects p g (correction (pos g -ℤ signed32 p) k)
unfolding Corrects correction div_ℤ ◌-ℤ◌
correction-Corrects p g k hp hg =
    ground (arith, div-le_self (g - p) (2 ^ k), div-le_self (p - g) (2 ^ k), zero-div (2 ^ k))

Corrects-nearer :
    (p g : ℕ) (c : ℤ)
    → p < 2 ^ 31
    → g < 2 ^ 31
    → Corrects p g c
    → (dist (word32 (signed32 p +ℤ c)) g ≤ dist p g - 1) × (word32 (signed32 p +ℤ c) < 2 ^ 31)
unfolding Corrects ◌+ℤ◌
Corrects-nearer p g (pos m) hp hg (l, m', e) = ground arith
Corrects-nearer p g (negsuc m) hp hg (l, m', e) = ground arith

smoothed-nearer :
    (c : BeaconTrack) (g : ℕ)
    → c.period_est_ms < 2 ^ 31
    → g < 2 ^ 31
    → (dist (smoothed c (pos g)) g ≤ dist c.period_est_ms g - 1) × (smoothed c (pos g) < 2 ^ 31)
unfolding smoothed
smoothed-nearer c g hp hg =
    Corrects-nearer c.period_est_ms g (correction (pos g -ℤ signed32 c.period_est_ms) c.ema_shift)
      hp hg (correction-Corrects c.period_est_ms g c.ema_shift hp hg)

-- The tracker after `m` beacons in a row that a true period of `g` ms puts `g` apart.
record Locking (guard w g m : ℕ) (c : BeaconTrack) (distance : ℕ) : Type 0 where
  pub referenced : c.have_last ≡ true
  pub period_low : c.period_est_ms < 2 ^ 31
  pub last_word : c.last_beacon_ms < 2 ^ 32
  pub guard_kept : c.guard_ms ≡ guard
  pub warmup_kept : c.warmup_n ≡ w
  pub counted : min m w ≤ c.warmup_count
  pub warmed : w ≤ m → c.tracking ≡ true
  pub near : dist c.period_est_ms g ≤ distance

-- `n` beacons, each `g` ms after the last one.
unfoldable pub beats : BeaconTrack → ℕ → ℕ → BeaconTrack
beats c g zero = c
beats c g (suc n) = beats (beacon c (u32 (c.last_beacon_ms + g))) g n

gap_signed : (a g : ℕ) → a < 2 ^ 32 → g < 2 ^ 31 → signed32 (sub32 (u32 (a + g)) a) ≡ pos g
gap_signed a g ha hg = rw (sub32-add a g ha (omega arith)) (ground arith)

beacon-warm :
    (c : BeaconTrack) (g : ℕ)
    → c.have_last ≡ true
    → c.last_beacon_ms < 2 ^ 32
    → g < 2 ^ 31
    → beacon c (u32 (c.last_beacon_ms + g))
      ≡ warm (record c { period_est_ms = smoothed c (pos g) }) (u32 (c.last_beacon_ms + g))
unfolding beacon
beacon-warm c g h hl hg = rw (gap_signed c.last_beacon_ms g hl hg, h) refl

warm-Locking :
    (guard w g m d p : ℕ) (c : BeaconTrack)
    → w < 2 ^ 16
    → Locking guard w g m c d
    → p < 2 ^ 31
    → dist p g ≤ d - 1
    → Locking guard w g
        (suc m)
        (warm (record c { period_est_ms = p }) (u32 (c.last_beacon_ms + g)))
        (d - 1)
unfolding warm
warm-Locking guard w g m d p c hw v hp near = ground arith

beacon-Locking :
    (guard w g m d : ℕ) (c : BeaconTrack)
    → g < 2 ^ 31
    → w < 2 ^ 16
    → Locking guard w g m c d
    → Locking guard w g (suc m) (beacon c (u32 (c.last_beacon_ms + g))) (d - 1)
beacon-Locking guard w g m d c hg hw v = rw (beacon-warm c g v.referenced v.last_word hg) (
    warm-Locking guard w g m d (smoothed c (pos g)) c hw v (smoothed-nearer c g v.period_low hg).1
      (omega (arith, (smoothed-nearer c g v.period_low hg).0, v.near)))

beats-Locking :
    (n guard w g m d : ℕ) (c : BeaconTrack)
    → g < 2 ^ 31
    → w < 2 ^ 16
    → Locking guard w g m c d
    → Locking guard w g (m + n) (beats c g n) (d - n)
unfolding beats
beats-Locking zero guard w g m d c hg hw v = ground arith
beats-Locking (suc n) guard w g m d c hg hw v = ground (
  arith,
  beats-Locking n guard w g (suc m) (d - 1) (beacon c (u32 (c.last_beacon_ms + g))) hg hw
      (beacon-Locking guard w g m d c hg hw v),
)

first-Locking :
    (c : BeaconTrack) (t g : ℕ)
    → c.period_est_ms < 2 ^ 31
    → t < 2 ^ 32
    → Locking c.guard_ms c.warmup_n g 1 (beacon (miss c) t) (dist c.period_est_ms g)
unfolding beacon miss warm
first-Locking c t g hp ht = ground arith

Locking-plan :
    {guard w g : ℕ} (m : ℕ) (c : BeaconTrack)
    → g < 2 ^ 31
    → guard < 2 ^ 31
    → w ≤ m
    → Locking guard w g m c 0
    → (c.period_est_ms ≡ g)
      × ((plan c).narrow ≡ true)
      × ((plan c).window_ms ≡ 2 * guard)
      × (u32 ((plan c).arm_at_ms + guard) ≡ u32 (c.last_beacon_ms + g))
unfolding plan sub32
Locking-plan m c hg hgd hm v = ground arith

-- Whatever the tracker did before a miss, with an estimate, a true period of `g` ms and a guard
-- below `2 ^ 31`: after a first beacon and `n` more, each `g` ms on, where `n` is at least the
-- distance of the estimate from `g` and the `n + 1` beacons are at least the warm-up, the estimate
-- is exactly `g`, the planned window is narrow, and the next beacon falls `guard_ms` after its
-- start, in its middle.
pub window_centred :
    (c : BeaconTrack) (t g n : ℕ)
    → c.period_est_ms < 2 ^ 31
    → t < 2 ^ 32
    → g < 2 ^ 31
    → c.warmup_n < 2 ^ 16
    → c.guard_ms < 2 ^ 31
    → dist c.period_est_ms g ≤ n
    → c.warmup_n ≤ suc n
    → let c' = beats (beacon (miss c) t) g n in
      (c'.period_est_ms ≡ g)
      × ((plan c').narrow ≡ true)
      × ((plan c').window_ms ≡ 2 * c.guard_ms)
      × (u32 ((plan c').arm_at_ms + c.guard_ms) ≡ u32 (c'.last_beacon_ms + g))
window_centred c t g n hp ht hg hw hgd hd hn =
    Locking-plan (suc n) (beats (beacon (miss c) t) g n) hg hgd hn (
      ground (
        arith,
        beats-Locking n c.guard_ms c.warmup_n g 1 (dist c.period_est_ms g) (beacon (miss c) t) hg hw
            (first-Locking c t g hp ht),
      ))
