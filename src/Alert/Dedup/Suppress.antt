-- ===== src/Alert/Dedup/Suppress.antt =====
-- What `alert_dedup_admit` lets through, and which entries it forgets.
use tag_testting.Common.{
  ℕ, zero, suc, ◌+◌, ◌^◌, ◌≤◌, ◌<◌, ◌≡◌, ◌⊎◌, ◌↔◌, inl, inr, refl, List, [], ◌∷◌, Bool, true, false,
  ◌||◌, none, some, arith, u32, sub32, set, get_or, length, bytes_eq_self, Option-cases, eq_of_some,
  Bool-cases, ℤ,
}
use mathlib.Core.Path.{subst}
use tag_testting.Alert.Message.{Alert}
use tag_testting.Alert.Dedup.{
  Entry, Search, blank, duplicate, note, search_from, slot, entry_of, admit, dedup_age_ms,
}

-- Some entry is a live duplicate of the message.
unfoldable pub any_duplicate : List Entry → Alert → ℕ → Bool
any_duplicate [] a now = false
any_duplicate (e ∷ es) a now = duplicate e a now || any_duplicate es a now

search_from-none :
    (es : List Entry) (a : Alert) (now i : ℕ) (s : Search)
    → (search_from es a now i s ≡ none) ↔ (any_duplicate es a now ≡ true)
unfolding search_from any_duplicate
search_from-none [] a now i s = ground arith
search_from-none (e ∷ es) a now i s =
    ground (arith, search_from-none es a now (i + 1) (note e now i s))

abbrev pub start : Search
start = record { free_idx = none; oldest_idx = 0; oldest_age = ℤ.negsuc 0 }

-- The two ways out of the loop.
pub admit-eq :
    (es : List Entry) (a : Alert) (now : ℕ)
    → ((any_duplicate es a now ≡ true) × (admit es a now ≡ (es, false)))
      ⊎ ((s : Search) × (any_duplicate es a now ≡ false)
          × (search_from es a now 0 start ≡ some s)
          × (admit es a now ≡ (set es (slot s) (entry_of a now), true)))
unfolding admit
admit-eq es a now = elim (Option-cases (search_from es a now 0 start)) [
  | inl e ↦ inl ((search_from-none es a now 0 start).0 e, rw e)
  | inr (s, e) ↦ inr (s, ground (arith, search_from-none es a now 0 start), e, rw e)
]

-- A message is dropped exactly when a live entry has its key, and a drop changes nothing.
pub admit_iff :
    (es : List Entry) (a : Alert) (now : ℕ)
    → (((admit es a now).1 ≡ false) ↔ (any_duplicate es a now ≡ true))
      × ((admit es a now).1 ≡ false → (admit es a now).0 ≡ es)
admit_iff es a now = elim (admit-eq es a now) [
  | inl (dup, e) ↦ rw e ((λ _. dup, λ _. refl), λ _. refl)
  | inr (s, fresh, _, e) ↦ rw e ((λ h. cc, λ h. cc), λ h. cc)
]

pub any_duplicate-at :
    (es : List Entry) (a : Alert) (now m : ℕ)
    → m < length es
    → duplicate (get_or es m blank) a now ≡ true
    → any_duplicate es a now ≡ true
unfolding any_duplicate
any_duplicate-at [] a now m h d = absurd (omega arith)
any_duplicate-at (e ∷ es) a now zero h d = ground arith
any_duplicate-at (e ∷ es) a now (suc m) h d =
    ground (arith, any_duplicate-at es a now m (omega arith) d)

pub any_duplicate-index :
    (es : List Entry) (a : Alert) (now : ℕ)
    → any_duplicate es a now ≡ true
    → (m : ℕ) × (m < length es) × (duplicate (get_or es m blank) a now ≡ true)
unfolding any_duplicate
any_duplicate-index [] a now h = cc
any_duplicate-index (e ∷ es) a now h = elim (Bool-cases (duplicate e a now)) [
  | inl d ↦ (0, omega arith, d)
  | inr n ↦ let (m, lt, d) = any_duplicate-index es a now (ground arith) in (suc m, omega arith, d)
]

-- Every index that the loop notes is below the length `n` of the array.
InRange : ℕ → Search → Type 0
InRange n s = (s.oldest_idx < n) × (slot s < n)

note-InRange :
    (e : Entry) (now i n : ℕ) (s : Search) → i < n → InRange n s → InRange n (note e now i s)
unfolding note InRange
note-InRange e now i n s h r = ground arith

search_from-InRange :
    (es : List Entry) (a : Alert) (now i n : ℕ) (s : Search) {r : Search}
    → i + length es ≤ n
    → InRange n s
    → search_from es a now i s ≡ some r
    → InRange n r
unfolding search_from
search_from-InRange [] a now i n s h b e = subst (InRange n) (eq_of_some e) b
search_from-InRange (x ∷ es) a now i n s h b e = elim (Bool-cases (duplicate x a now)) [
  | inl d ↦ absurd (ground arith)
  | inr d ↦
      search_from-InRange es a now (i + 1) n (note x now i s) (omega arith)
        (note-InRange x now i n s (omega arith) b) (rw d at e)
]

pub slot-lt :
    (es : List Entry) (a : Alert) (now : ℕ) {s : Search}
    → 0 < length es
    → search_from es a now 0 start ≡ some s
    → slot s < length es
unfolding InRange
slot-lt es a now h e = (search_from-InRange es a now 0 (length es) start (omega arith) (h, h) e).1

pub duplicate-entry_of :
    (a : Alert) (t d : ℕ)
    → t < 2 ^ 32
    → d < dedup_age_ms
    → duplicate (entry_of a t) a (u32 (t + d)) ≡ true
unfolding sub32
duplicate-entry_of a t d ht hd = ground (arith, bytes_eq_self a.orig_eui)
