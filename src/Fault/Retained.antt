-- ===== src/Fault/Retained.antt =====
-- The record of a fatal error (src/wdt.c) over a reset that may come in the middle of writing it.
use tag_testting.Common.{
  ℕ, zero, suc, ◌+◌, ◌≤◌, ◌<◌, ◌≡◌, ◌≢◌, refl, ap, Bool, true, false, Option, none, some, List, [],
  ◌∷◌, ◌++◌, length, take, set, All, arith, length-append,
}
use tag_testting.Fault.{
  FaultRec, FaultReport, fault_magic, string_in, tag_fault_get, tag_fault_clear, Store, to_reason,
  to_pc, to_lr, to_bfar, to_magic, to_thread, store, name_stores, thread_stores, saved,
  fatal_stores, store_all,
}
use tag_testting.Fault.Name.{store_all-append, short_name, named}

-- A store that leaves the magic word alone.
abbrev is_plain : Store → Bool
is_plain (to_magic v) = false
is_plain _ = true

abbrev Plain : List Store → Type 0
Plain = All (λ s. is_plain s ≡ true)

name_stores-Plain : (n i : ℕ) (name : List ℕ) → Plain (name_stores n i name)
unfolding name_stores
name_stores-Plain zero i name = (refl, tt)
name_stores-Plain (suc n) i [] = (refl, tt)
name_stores-Plain (suc n) i (c ∷ name) = ground (arith, name_stores-Plain n (i + 1) name)

thread_stores-Plain : (name : Option (List ℕ)) → Plain (thread_stores name)
unfolding thread_stores
thread_stores-Plain none = (refl, tt)
thread_stores-Plain (some name) = name_stores-Plain 15 0 name

-- Plain stores, some of them or all, keep the magic word.
Plain-magic : (f : FaultRec) (ss : List Store) → Plain ss → (store_all f ss).magic ≡ f.magic
unfolding store_all store
Plain-magic f [] h = refl
Plain-magic f (to_reason v ∷ ss) h = Plain-magic (store f (to_reason v)) ss h.1
Plain-magic f (to_pc v ∷ ss) h = Plain-magic (store f (to_pc v)) ss h.1
Plain-magic f (to_lr v ∷ ss) h = Plain-magic (store f (to_lr v)) ss h.1
Plain-magic f (to_bfar v ∷ ss) h = Plain-magic (store f (to_bfar v)) ss h.1
Plain-magic f (to_magic v ∷ ss) h = absurd (ground (arith, h.0))
Plain-magic f (to_thread i v ∷ ss) h = Plain-magic (store f (to_thread i v)) ss h.1

-- A proper prefix of plain stores and one more is plain.
prefix-Plain :
    (ss : List Store) (last : Store) (n : ℕ)
    → Plain ss
    → n ≤ length ss
    → Plain (take n (ss ++ last ∷ []))
prefix-Plain ss last zero h k = tt
prefix-Plain [] last (suc n) h k = absurd (omega arith)
prefix-Plain (s ∷ ss) last (suc n) h k = (h.0, prefix-Plain ss last n h.1 (omega arith))

-- A fatal error that is cut short by the reset is not reported: if no report was there before it, then
-- after any part of the handler's stores but the whole there is none.
pub torn_record_unread :
    (f : FaultRec) (reason bfar n : ℕ) (esf : Option (ℕ × ℕ)) (name : Option (List ℕ))
    → f.magic ≢ fault_magic
    → n < length (fatal_stores reason esf bfar name)
    → (tag_fault_get (store_all f (take n (fatal_stores reason esf bfar name)))).1 ≡ none
unfolding tag_fault_get fatal_stores
torn_record_unread f reason bfar n esf name fresh h =
    let body =
      to_reason reason
      ∷ to_pc (saved esf).0
      ∷ to_lr (saved esf).1
      ∷ to_bfar bfar
      ∷ thread_stores name in
    let plain : Plain body = (refl, (refl, (refl, (refl, thread_stores-Plain name)))) in
    let room : n ≤ length body =
      omega (arith, h, length-append (thread_stores name) (to_magic fault_magic ∷ [])) in
    let kept = Plain-magic f _ (prefix-Plain body (to_magic fault_magic) n plain room) in
    ground (arith, kept)

-- The report after the whole of the handler.
abbrev pub reported : ℕ → Option (ℕ × ℕ) → ℕ → Option (List ℕ) → FaultReport
reported reason esf bfar name = record {
  reason = reason;
  pc = (saved esf).0;
  lr = (saved esf).1;
  bfar = bfar;
  name = short_name name;
}

-- A fatal error is reported after the reset, whatever the record held before: its reason, the saved
-- program counter and link register, or 0 without a frame, the faulting address, and the first 15
-- characters of the thread's name; and once it is cleared there is no report.
pub fault_reported :
    (f : FaultRec) (reason bfar : ℕ) (esf : Option (ℕ × ℕ)) (name : Option (List ℕ))
    → length f.thread ≡ 16
    → let written = store_all f (fatal_stores reason esf bfar name) in
      ((tag_fault_get written).1 ≡ some (reported reason esf bfar name))
      × ((tag_fault_get (tag_fault_clear written)).1 ≡ none)
unfolding tag_fault_get fatal_stores tag_fault_clear store_all store
fault_reported f reason bfar esf name h =
    let f4 = record f { reason = reason; pc = (saved esf).0; lr = (saved esf).1; bfar = bfar } in
    let n = named f4 name h in
    rw (store_all-append f4 (thread_stores name) (to_magic fault_magic ∷ [])) (
      ground (
        arith,
        n.0,
        ap (λ (x : FaultRec). x.reason) n.1,
        ap (λ (x : FaultRec). x.pc) n.1,
        ap (λ (x : FaultRec). x.lr) n.1,
        ap (λ (x : FaultRec). x.bfar) n.1,
      ),
      refl,
    )

-- A fatal error that is cut short while an older report has not been cleared is reported, with fields
-- of both: after the first store of the handler, the new reason stands with the old registers.
pub torn_over_old_read :
    (f : FaultRec) (reason bfar : ℕ) (esf : Option (ℕ × ℕ)) (name : Option (List ℕ))
    → f.magic ≡ fault_magic
    → (tag_fault_get (store_all f (take 1 (fatal_stores reason esf bfar name)))).1
      ≡ some (record {
        reason = reason;
        pc = f.pc;
        lr = f.lr;
        bfar = f.bfar;
        name = string_in (set f.thread 15 0);
      })
unfolding tag_fault_get fatal_stores store_all store
torn_over_old_read f reason bfar esf name old = rw old refl
