-- ===== src/Net/Cadence.antt =====
-- How often a tag that keeps its seat sweeps: `part_count` against `range_every`.
use tag_testting.Common.{
  ℕ, suc, ◌+◌, ◌/◌, ◌%◌, ◌^◌, ◌<◌, ◌≡◌, List, [], ◌∷◌, true, arith, length, ◌==◌, if◌then◌else◌,
  ℕ_discrete,
}
use native.Mathlib.Nat.{add-div_left, add-mod_left, add-zero, zero-add, mod-eq_of_lt, div-eq_of_lt}
use tag_testting.Net.Act
use tag_testting.Net.Tiers.{Table, get_tier_params}
use tag_testting.Net.Machine.{ranging, beacon, Event, Ctx, handle, lease_age}
use tag_testting.Net.Trace.{after, actions}

-- The words of a list that order a sweep.
abbrev pub sweeps : List ℕ → ℕ
sweeps [] = 0
sweeps (a ∷ rest) = (if Act.masked a Act.run_sweep == 0 then 0 else 1) + sweeps rest

-- Every event is a beacon that lists the tag.
abbrev pub Listed : List Event → Type 0
Listed [] = Unit
Listed (ev ∷ evs) = (ev.kind ≡ beacon) × (ev.in_map ≡ true) × Listed evs

handle-part :
    (tbl : Table) (k : ℕ) (c : Ctx) (ev : Event)
    → k < 2 ^ 16
    → c.state ≡ ranging
    → (get_tier_params tbl c.tier).range_every ≡ k
    → c.part_count < k
    → ev.kind ≡ beacon
    → ev.in_map ≡ true
    → let (c', act) = handle tbl c ev in
      (c'.state ≡ ranging)
      × (c'.tier ≡ c.tier)
      × (c'.part_count ≡ (if suc c.part_count == k then 0 else suc c.part_count))
      × (sweeps (act ∷ []) ≡ (if suc c.part_count == k then 1 else 0))
unfolding handle lease_age
handle-part tbl k c ev w s t p b m = ground arith

-- The participation that fills a round of `k`, and one that does not.
round_closed : (p k n : ℕ) → suc p ≡ k → ((p + suc n) / k ≡ n / k + 1) × ((p + suc n) % k ≡ n % k)
round_closed p k n e =
    let sum : p + suc n ≡ k + n = omega arith in
    rw sum (add-div_left n (omega arith), add-mod_left k n)

round_open : (p n : ℕ) → p + suc n ≡ suc p + n
round_open p n = omega arith

-- With `k` as the tier's `range_every` and fewer than `k` participations counted, a tag in RANGING
-- that hears `n` beacons which list it sweeps once in every `k` participations: `(part_count + n) /
-- k` sweeps, and the remainder is counted.
pub sweep_cadence :
    (tbl : Table) (k : ℕ) (c : Ctx) (evs : List Event)
    → k < 2 ^ 16
    → c.state ≡ ranging
    → (get_tier_params tbl c.tier).range_every ≡ k
    → c.part_count < k
    → Listed evs
    → (sweeps (actions tbl c evs) ≡ (c.part_count + length evs) / k)
      × ((after tbl c evs).part_count ≡ (c.part_count + length evs) % k)
unfolding after actions
sweep_cadence tbl k c [] w s t p l = grind (arith, add-zero, mod-eq_of_lt p, div-eq_of_lt p)
sweep_cadence tbl k c (ev ∷ evs) w s t p l =
    let (st, tr, pc, sw) = handle-part tbl k c ev w s t p l.0 l.1 in
    let (ih, rest) =
      sweep_cadence tbl k (handle tbl c ev).0 evs w st (rw tr t) (ground arith) l.2 in
    elim (ℕ_discrete (suc c.part_count) k) [
      | yes e ↦ ground (arith, round_closed c.part_count k (length evs) e, zero-add (length evs))
      | no ne ↦ rw (round_open c.part_count (length evs)) (ground arith)
    ]
