-- ===== src/Debug/Lines.antt =====
-- What the lines of a sweep (`pos_dbg_sweep` of src/pos_dbg.c) say, read by the layouts of the header.
use tag_testting.Common.{
  ℕ, zero, suc, ◌%◌, ◌^◌, ◌<◌, ◌≤◌, ◌≡◌, refl, Bool, true, false, not, Option, none, some, List, [],
  ◌∷◌, ◌++◌, ◌==◌, if◌then◌else◌, get_or, length, replicate, take, drop, All, Bool-cases, arith,
  inl, inr,
}
use tag_testting.Debug.Decode.{Reading, Slot, Record, sweep, slots, mark, decode}
use tag_testting.Debug.Encode.{SweepFields, aid_none, enc_sweep, sweep_len}
use tag_testting.Debug.Trips.{Below, IsTyped, masked, reading_of, sweep_round_trip, Encoded}
use tag_testting.Debug.SetTrips.{set_round_trip, asked}
use tag_testting.Debug.Session.{
  Session, Dbg, Line, say, raw, Sweep, or_default, filled, slot_differs, differs, take_set,
  next_session, log_set, log_raw, fields_of, dt_of, pos_dbg_sweep, scratch,
}

-- The arguments of `pos_dbg_sweep` are values of their C types.
pub record IsTypedSweep (w : Sweep) : Type 0 where
  pub ax_word : Below (2 ^ 16) w.ax_cm
  pub ay_word : Below (2 ^ 16) w.ay_cm
  pub range_word : Below (2 ^ 16) w.r_cm
  pub mask_byte : w.mask < 2 ^ 8
  pub tier_byte : w.tier < 2 ^ 8
  pub res_word : w.res_cm < 2 ^ 16

-- The arrays of the session have their four elements.
pub record IsFour (s : Session) : Type 0 where
  pub aids : length s.set_aid ≡ 4
  pub xs : length s.set_ax ≡ 4
  pub ys : length s.set_ay ≡ 4

pub four :
    (xs : List ℕ)
    → length xs ≡ 4
    → xs ≡ get_or xs 0 0 ∷ get_or xs 1 0 ∷ get_or xs 2 0 ∷ get_or xs 3 0 ∷ []
four (a ∷ b ∷ c ∷ d ∷ []) h = refl
four [] h = absurd (omega arith)
four (a ∷ []) h = absurd (omega arith)
four (a ∷ b ∷ []) h = absurd (omega arith)
four (a ∷ b ∷ c ∷ []) h = absurd (omega arith)
four (a ∷ b ∷ c ∷ d ∷ e ∷ r) h = absurd (omega arith)

-- The four slots that the session keeps.
abbrev pub kept_slot : Session → ℕ → Slot
kept_slot s i = record {
  aid = get_or s.set_aid i 0;
  x = get_or s.set_ax i 0;
  y = get_or s.set_ay i 0;
}

-- The session keeps the caller's selection.
abbrev pub Keeps : Session → Sweep → Type 0
Keeps s w =
    (s.set_aid ≡ filled w.aid aid_none)
    × (s.set_ax ≡ filled w.ax_cm 0)
    × (s.set_ay ≡ filled w.ay_cm 0)

-- The loop finds no change exactly where the session keeps what the caller has selected.
pub unchanged-Keeps :
    (s : Session) (w : Sweep)
    → IsFour s
    → differs 4 0 s w (not s.have_set) ≡ false
    → (s.have_set ≡ true) × Keeps s w
unfolding differs slot_differs
unchanged-Keeps s w f h = ground (arith, four s.set_aid, four s.set_ax, four s.set_ay)

-- After the session's step it keeps the caller's selection.
pub next_session-Keeps :
    (s : Session) (w : Sweep)
    → IsFour s
    → Keeps (next_session s w).0 w × ((next_session s w).0.have_set ≡ true)
unfolding next_session take_set
next_session-Keeps s w f = elim (Bool-cases (differs 4 0 s w (not s.have_set))) [
  | inl new ↦ rw new ((refl, refl, refl), refl)
  | inr old ↦ let k = unchanged-Keeps s w f old in rw old (k.1, k.0)
]

-- An encoder that met its contract in a buffer of enough room hands on one record, which reads as said.
sent_line :
    (buf : List ℕ) (len : ℕ) (said : Record) (r : Option (List ℕ) × ℕ)
    → 0 < len
    → len ≤ 20
    → Encoded (some buf) 20 len (some said) r
    → (b : List ℕ) × (log_raw r ≡ raw b ∷ []) × (decode b ≡ some said)
unfolding log_raw
sent_line buf len said (none, n) p k e = absurd e
sent_line buf len said (some out, n) p k e = (take n out, ground arith, ground arith)

-- The SET record of a base of the session's arrays.
pub log_set_said :
    (s : Session) (base : ℕ) (said : Record)
    → Below (2 ^ 16) (some (drop base s.set_ax))
    → Below (2 ^ 16) (some (drop base s.set_ay))
    → asked s.epoch base
        (some (drop base s.set_aid))
        (some (drop base s.set_ax))
        (some (drop base s.set_ay))
      ≡ some said
    → (b : List ℕ) × (log_set s base ≡ raw b ∷ []) × (decode b ≡ some said)
unfolding log_set
log_set_said s base said hx hy e =
    let trip =
      set_round_trip scratch 20 s.epoch base (some (drop base s.set_aid))
        (some (drop base s.set_ax)) (some (drop base s.set_ay)) hx hy (omega arith) in
    sent_line (replicate 20 0) 13 said _ (omega arith) (omega arith) (rw e at trip)

-- The SWEEP record.
pub log_sweep_said :
    (f : SweepFields)
    → IsTyped f
    → (b : List ℕ) × (log_raw (enc_sweep scratch sweep_len f) ≡ raw b ∷ [])
      × (decode b ≡ some (sweep (reading_of f)))
log_sweep_said f h =
    sent_line (replicate 20 0) 20 (sweep (reading_of f)) _ (omega arith) (omega arith)
      (sweep_round_trip scratch sweep_len f h (omega arith))

dt_of-word : (s : Session) (now_ms : ℕ) → dt_of s now_ms < 2 ^ 16
unfolding dt_of
dt_of-word s now_ms = ground arith

-- What a reading says of the sweep it came from, besides its number, time and epoch.
abbrev pub Tells : Sweep → Reading → Type 0
Tells w r =
    (r.mask ≡ w.mask % 16)
    × (r.tier ≡ w.tier % 4)
    × (r.moving ≡ w.moving)
    × (r.solved ≡ w.solved)
    × (r.ranges ≡ masked w.mask w.r_cm)
    × (r.res_cm ≡ w.res_cm)

-- A record of the session after the sweep `w`: a pair of the session's slots, or the sweep.
abbrev pub Says : Session → Sweep → Option Record → Type 0
Says s w none = Unit
Says s w (some (slots e base a b)) =
    (e ≡ s.epoch)
    × (if base == 0
        then (a ≡ kept_slot s 0) × (b ≡ kept_slot s 1)
        else (a ≡ kept_slot s 2) × (b ≡ kept_slot s 3))
Says s w (some (sweep r)) = (r.epoch ≡ s.epoch) × Tells w r
Says s w (some (mark q i)) = Unit

abbrev pub SaysLine : Session → Sweep → Line → Type 0
SaysLine s w (say t) = Unit
SaysLine s w (raw b) = Says s w (decode b)

one_line :
    (s : Session) (w : Sweep) (ls : List Line) (said : Record)
    → Says s w (some said)
    → (b : List ℕ) × (ls ≡ raw b ∷ []) × (decode b ≡ some said)
    → All (SaysLine s w) ls
one_line s w ls said h (b, e, d) = rw (e, d) (h, tt)

All-append :
    (s : Session) (w : Sweep) (xs ys : List Line)
    → All (SaysLine s w) xs
    → All (SaysLine s w) ys
    → All (SaysLine s w) (xs ++ ys)
All-append s w [] ys h k = k
All-append s w (x ∷ xs) ys h k = (h.0, All-append s w xs ys h.1 k)

-- An array of 16-bit values gives one in every slot.
or_default_word : (xs : Option (List ℕ)) (i : ℕ) → Below (2 ^ 16) xs → or_default xs 0 i < 2 ^ 16
or_default_word none i h = omega arith
or_default_word (some []) i h = omega arith
or_default_word (some (x ∷ xs)) zero h = h.0
or_default_word (some (x ∷ xs)) (suc i) h = or_default_word (some xs) i h.1

-- The two SET records of a session that keeps the selection say its slots.
pub log_low_said :
    (s : Session) (w : Sweep)
    → Keeps s w
    → IsTypedSweep w
    → (b : List ℕ) × (log_set s 0 ≡ raw b ∷ [])
      × (decode b ≡ some (slots s.epoch 0 (kept_slot s 0) (kept_slot s 1)))
log_low_said s w (ka, kx, ky) t =
    let x = λ (i : ℕ). or_default_word w.ax_cm i t.ax_word in
    let y = λ (i : ℕ). or_default_word w.ay_cm i t.ay_word in
    log_set_said s 0 _ (rw kx (x 0, (x 1, (x 2, (x 3, tt))))) (rw ky (y 0, (y 1, (y 2, (y 3, tt)))))
      refl

pub log_high_said :
    (s : Session) (w : Sweep)
    → Keeps s w
    → IsTypedSweep w
    → (b : List ℕ) × (log_set s 2 ≡ raw b ∷ [])
      × (decode b ≡ some (slots s.epoch 2 (kept_slot s 2) (kept_slot s 3)))
log_high_said s w (ka, kx, ky) t =
    let x = λ (i : ℕ). or_default_word w.ax_cm i t.ax_word in
    let y = λ (i : ℕ). or_default_word w.ay_cm i t.ay_word in
    log_set_said s 2 _ (rw kx (x 2, (x 3, tt))) (rw ky (y 2, (y 3, tt))) (rw (ka, kx, ky) refl)

sets_say :
    (s : Session) (w : Sweep)
    → Keeps s w
    → IsTypedSweep w
    → All (SaysLine s w) (log_set s 0 ++ log_set s 2)
sets_say s w k t =
    All-append s w (log_set s 0) (log_set s 2)
      (one_line s w (log_set s 0) (slots s.epoch 0 (kept_slot s 0) (kept_slot s 1))
        (refl, (refl, refl)) (log_low_said s w k t))
      (one_line s w (log_set s 2) (slots s.epoch 2 (kept_slot s 2) (kept_slot s 3))
        (refl, (refl, refl)) (log_high_said s w k t))

pub fields_of-IsTyped :
    (d : Dbg) (s' : Session) (w : Sweep) → IsTypedSweep w → IsTyped (fields_of d s' w)
fields_of-IsTyped d s' w t = record {
  dt_word = dt_of-word d.session w.now_ms;
  mask_byte = t.mask_byte;
  tier_byte = t.tier_byte;
  res_word = t.res_word;
  ranges_word = t.range_word;
}

optional :
    (b : Bool) (s : Session) (w : Sweep) (ls : List Line)
    → All (SaysLine s w) ls
    → All (SaysLine s w) (if b then ls else [])
optional true s w ls h = h
optional false s w ls h = tt

gated :
    (b : Bool) (d : Dbg) (w : Sweep) (r : Dbg × List Line)
    → All (SaysLine r.0.session w) r.1
    → All (SaysLine (if not b then (d, []) else r).0.session w) (if not b then (d, []) else r).1
gated true d w r h = h
gated false d w r h = tt

-- Every line of a sweep says the session after it, or the sweep.
pub sweep_says :
    (d : Dbg) (w : Sweep)
    → IsFour d.session
    → IsTypedSweep w
    → All (SaysLine (pos_dbg_sweep d w).0.session w) (pos_dbg_sweep d w).1
unfolding pos_dbg_sweep
sweep_says d w f t =
    let s' = (next_session d.session w).0 in
    let changed = (next_session d.session w).1 in
    let sets = log_set s' 0 ++ log_set s' 2 in
    let keeps = (next_session-Keeps d.session w f).0 in
    let told : Says s' w (some (sweep (reading_of (fields_of d s' w)))) =
      (refl, (refl, refl, refl, refl, refl, refl)) in
    gated d.enabled d w _ (
      All-append s' w (if changed then sets else []) _
        (optional changed s' w sets (sets_say s' w keeps t))
        (one_line s' w _ _ told (log_sweep_said (fields_of d s' w) (fields_of-IsTyped d s' w t))))
