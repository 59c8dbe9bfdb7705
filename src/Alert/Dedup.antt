-- ===== src/Alert/Dedup.antt =====
-- Duplicate suppression of src/alert_relay.c.
pub mod Suppress
pub mod Evict
pub mod Remember
use tag_testting.Common.{
  ℕ, ◌+◌, ◌^◌, List, [], ◌∷◌, Bool, true, false, not, ◌&&◌, Option, none, some, ltb, ◌==◌,
  if◌then◌else◌, sub32, sge32, set, bytes_eq, replicate, ℤ, negsuc, ltb_ℤ, signed32,
}
use tag_testting.Alert.Message.{Alert}

abbrev pub dedup_n : ℕ
dedup_n = 16

abbrev pub dedup_age_ms : ℕ
dedup_age_ms = 30000

-- `struct alert_dedup_entry`
pub record Entry : Type 0 where
  pub eui : List ℕ
  pub epoch : ℕ
  pub state : ℕ
  pub repeat_seq : ℕ
  pub seen_ms : ℕ
  pub used : Bool

-- A zeroed slot.
abbrev pub blank : Entry
blank = record {
  eui = replicate 8 0;
  epoch = 0;
  state = 0;
  repeat_seq = 0;
  seen_ms = 0;
  used = false;
}

-- `alert_dedup_reset`; the list is the array of `struct alert_dedup`
unfoldable pub reset : List Entry
reset = replicate dedup_n blank

-- `dedup_key_eq`
abbrev pub key_eq : Entry → Alert → Bool
key_eq e a =
    bytes_eq e.eui a.orig_eui
    && e.epoch == a.epoch
    && e.state == a.state
    && e.repeat_seq == a.repeat_seq

-- `free_idx` (`none` for -1), `oldest_idx` and `oldest_age`
pub record Search : Type 0 where
  pub free_idx : Option ℕ
  pub oldest_idx : ℕ
  pub oldest_age : ℤ

abbrev pub aged_out : Entry → ℕ → Bool
aged_out e now_ms = sge32 (sub32 now_ms e.seen_ms) dedup_age_ms

abbrev pub or_else : Option ℕ → ℕ → Option ℕ
or_else none i = some i
or_else (some j) i = some j

-- One round of the loop, for an entry that is no live duplicate.
unfoldable pub note : Entry → ℕ → ℕ → Search → Search
note e now_ms i s =
    if not e.used
    then record s { free_idx = or_else s.free_idx i }
    else let age = signed32 (sub32 now_ms e.seen_ms) in
      let s' = if aged_out e now_ms then record s { free_idx = or_else s.free_idx i } else s in
      if ltb_ℤ s'.oldest_age age then record s' { oldest_age = age; oldest_idx = i } else s'

-- A used entry with the key, that has not aged out
abbrev pub duplicate : Entry → Alert → ℕ → Bool
duplicate e a now_ms = e.used && (key_eq e a && not (aged_out e now_ms))

-- The loop from index `i` on; `none` is its early `return false`.
unfoldable pub search_from : List Entry → Alert → ℕ → ℕ → Search → Option Search
search_from [] a now_ms i s = some s
search_from (e ∷ es) a now_ms i s =
    let rest = search_from es a now_ms (i + 1) (note e now_ms i s) in
    if duplicate e a now_ms then none else rest

abbrev pub slot : Search → ℕ
slot s = elim s.free_idx [ none ↦ s.oldest_idx | some j ↦ j ]

abbrev pub entry_of : Alert → ℕ → Entry
entry_of a now_ms = record {
  eui = a.orig_eui;
  epoch = a.epoch;
  state = a.state;
  repeat_seq = a.repeat_seq;
  seen_ms = now_ms;
  used = true;
}

-- The store into the chosen slot, or the early return.
finish : List Entry → Alert → ℕ → Option Search → List Entry × Bool
finish es a now_ms none = (es, false)
finish es a now_ms (some s) = (set es (slot s) (entry_of a now_ms), true)

-- `alert_dedup_admit`
unfoldable pub admit : List Entry → Alert → ℕ → List Entry × Bool
unfolding finish
admit es a now_ms =
    finish es a now_ms (
      search_from es a now_ms 0 (record { free_idx = none; oldest_idx = 0; oldest_age = negsuc 0 }))
