-- ===== src/Alert/Latch.antt =====
-- The gateway's latch of src/alert_relay.c: one entry for each originator.
pub mod Entry
pub mod Lookup
pub mod Stale
use tag_testting.Common.{
  ℕ, ◌+◌, List, [], ◌∷◌, Bool, true, false, not, ◌&&◌, ◌||◌, Option, none, some, ltb, ◌==◌,
  if◌then◌else◌, newer8, set, get_or, bytes_eq, replicate, bit_and,
}
use tag_testting.Alert.Message.{Alert, state_help}

abbrev pub latch_n : ℕ
latch_n = 32

-- `struct alert_latch_entry`
pub record LatchEntry : Type 0 where
  pub eui : List ℕ
  pub epoch : ℕ
  pub last_cancelled : ℕ
  pub active : Bool
  pub have_cancelled : Bool
  pub last_heard_ms : ℕ
  pub used : Bool
  pub have_epoch : Bool

-- `alert_latch_res_t`
pub data LatchRes : Type 0 where
  ignored raised refreshed cleared : LatchRes

-- A zeroed slot.
abbrev pub blank : LatchEntry
blank = record {
  eui = replicate 8 0;
  epoch = 0;
  last_cancelled = 0;
  active = false;
  have_cancelled = false;
  last_heard_ms = 0;
  used = false;
  have_epoch = false;
}

-- `alert_latch_reset`; the list is the array of `struct alert_latch`
unfoldable pub reset : List LatchEntry
reset = replicate latch_n blank

-- `free_idx` (`none` for -1), `oldest_idx` and `oldest_ms`
pub record Search : Type 0 where
  pub free_idx : Option ℕ
  pub oldest_idx : ℕ
  pub oldest_ms : ℕ

abbrev pub first_free : Option ℕ → Bool → ℕ → Option ℕ
first_free none free i = if free then some i else none
first_free (some j) free i = some j

-- One round of the loop, for an entry of another originator.
unfoldable pub note : LatchEntry → ℕ → Search → Search
note e i s =
    let s' = record s { free_idx = first_free s.free_idx (not e.used) i } in
    if e.used && ltb e.last_heard_ms s'.oldest_ms
    then record s' { oldest_ms = e.last_heard_ms; oldest_idx = i }
    else s'

abbrev pub holds : LatchEntry → List ℕ → Bool
holds e eui = e.used && bytes_eq e.eui eui

-- What the loop ends with: the index of the originator's entry, or what it noted.
pub data Found : Type 0 where
  at : ℕ → Found
  nowhere : Search → Found

-- The loop of `latch_find_or_alloc` from index `i` on.
unfoldable pub find_from : List LatchEntry → List ℕ → ℕ → Search → Found
find_from [] eui i s = nowhere s
find_from (e ∷ es) eui i s =
    let rest = find_from es eui (i + 1) (note e i s) in if holds e eui then at i else rest

abbrev pub slot : Search → ℕ
slot s = elim s.free_idx [ none ↦ s.oldest_idx | some j ↦ j ]

abbrev pub fresh : List ℕ → ℕ → LatchEntry
fresh eui now_ms = record blank { eui = eui; used = true; last_heard_ms = now_ms }

-- The pointer that `latch_find_or_alloc` returns, as an index into the array that it leaves.
unfoldable pub allocate : List LatchEntry → List ℕ → ℕ → Found → List LatchEntry × ℕ
allocate es eui now_ms (at i) = (es, i)
allocate es eui now_ms (nowhere s) = (set es (slot s) (fresh eui now_ms), slot s)

abbrev pub start : Search
start = record { free_idx = none; oldest_idx = 0; oldest_ms = 0xffff_ffff }

-- `latch_find_or_alloc`
unfoldable pub find_or_alloc : List LatchEntry → List ℕ → ℕ → List LatchEntry × ℕ
unfolding allocate
find_or_alloc es eui now_ms = allocate es eui now_ms (find_from es eui 0 start)

-- The body of `alert_latch_apply` after the lookup, on the entry `e`.
unfoldable pub apply_entry : LatchEntry → Alert → ℕ → LatchEntry × LatchRes
apply_entry e a now_ms =
    if bit_and a.state state_help == 0
    then (
      record e {
        active = false;
        epoch = a.epoch;
        have_epoch = true;
        last_cancelled = a.epoch;
        have_cancelled = true;
        last_heard_ms = now_ms;
      },
      cleared,
    )
    else if e.have_cancelled && a.epoch == e.last_cancelled
    then (e, ignored)
    else if e.active && a.epoch == e.epoch
    then (record e { last_heard_ms = now_ms }, refreshed)
    else if not e.have_epoch || newer8 a.epoch e.epoch
    then (
      record e { active = true; epoch = a.epoch; have_epoch = true; last_heard_ms = now_ms },
      raised,
    )
    else (e, ignored)

-- `alert_latch_apply`
unfoldable pub apply : List LatchEntry → Alert → ℕ → List LatchEntry × LatchRes
apply es a now_ms =
    let (es', i) = find_or_alloc es a.orig_eui now_ms in
    let (e, res) = apply_entry (get_or es' i blank) a now_ms in (set es' i e, res)
