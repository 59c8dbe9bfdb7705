-- ===== src/Debug/Capture.antt =====
-- A whole capture: the session of src/pos_dbg.c over many sweeps, and the listener at the other end.
use tag_testting.Common.{
  ℕ, ◌+◌, ◌^◌, ◌<◌, ◌≡◌, refl, ◌∙◌, ap, Bool, true, false, not, ◌&&◌, Option, none, some, List, [],
  ◌∷◌, ◌++◌, if◌then◌else◌, All, u8, Bool-cases, arith, inl, inr, length, map,
}
use tag_testting.Debug.Decode.{Slot}
use tag_testting.Debug.Session.{
  Session, Dbg, fresh, Sweep, slot_differs, differs, next_session, take_set, pos_dbg_sweep,
  pos_dbg_on_cmd, dbg_prefix, on_text,
}
use tag_testting.Debug.Host.{
  Pair, Host, deaf, Heard, selected, selected_slot, slot_eq, slots_eq, set_changes, capture,
}
use tag_testting.Debug.Lines.{
  IsTypedSweep, IsFour, kept_slot, Keeps, next_session-Keeps, sweep_says,
}
use tag_testting.Debug.Listener.{Fits, HostFits, IsRight, listen-IsRight}

abbrev kept : Session → List Slot
kept s = kept_slot s 0 ∷ kept_slot s 1 ∷ kept_slot s 2 ∷ kept_slot s 3 ∷ []

-- The session of a capture that has begun, with room for more changes of the set.
record Begun (d : Dbg) (h : Host) : Type 0 where
  on : d.enabled ≡ true
  known : d.session.have_set ≡ true
  sized : IsFour d.session
  fits : HostFits d.session h

slot_differs-slot_eq :
    (s : Session) (w : Sweep) (i : ℕ)
    → slot_differs s w i ≡ not (slot_eq (kept_slot s i) (selected_slot w i))
unfolding slot_differs slot_eq
slot_differs-slot_eq s w i = ground arith

four_tests :
    (a b c d : Bool)
    → (if not d
        then true
        else if not c
        then true
        else if not b
        then true
        else if not a
        then true
        else false)
      ≡ not (a && (b && (c && (d && true))))
four_tests a b c d = ground arith

differs_changes :
    (s : Session) (w : Sweep)
    → s.have_set ≡ true
    → differs 4 0 s w (not s.have_set) ≡ not (slots_eq (kept s) (selected w))
unfolding differs slots_eq
differs_changes s w h =
    let same = λ (i : ℕ). slot_eq (kept_slot s i) (selected_slot w i) in
    rw
      (
        h,
        slot_differs-slot_eq s w 0,
        slot_differs-slot_eq s w 1,
        slot_differs-slot_eq s w 2,
        slot_differs-slot_eq s w 3,
      )
      (four_tests (same 0) (same 1) (same 2) (same 3))

-- A pair of an epoch that is over fits whatever the session takes for the next one.
Fits-next :
    (e e' : ℕ) (a b c d : Slot) (o : Option Pair) → e' ≡ e + 1 → Fits e a b o → Fits e' c d o
Fits-next e e' a b c d none n f = tt
Fits-next e e' a b c d (some p) n f = ground arith

abbrev change : Session → Sweep → ℕ
change s w = if slots_eq (kept s) (selected w) then 0 else 1

-- A known set and its listener after the session's step: the epoch counts the changes.
next_fits :
    (s : Session) (w : Sweep) (h : Host)
    → IsFour s
    → s.have_set ≡ true
    → s.epoch + change s w < 2 ^ 8
    → HostFits s h
    → HostFits (next_session s w).0 h × ((next_session s w).0.epoch ≡ s.epoch + change s w)
unfolding next_session take_set
next_fits s w h f set room fits = elim (Bool-cases (slots_eq (kept s) (selected w))) [
  | inl same ↦
      let old = differs_changes s w set ∙ ap not same in
      rw (old, same) (record { low_fits = fits.low_fits; high_fits = fits.high_fits }, omega arith)
  | inr other ↦
      let new = differs_changes s w set ∙ ap not other in
      let next : u8 (s.epoch + 1) ≡ s.epoch + 1 = ground (arith, rw other at room) in
      rw (new, set, other, next)
        (
          record {
            low_fits =
                Fits-next s.epoch _ (kept_slot s 0) (kept_slot s 1) _ _ h.low refl fits.low_fits;
            high_fits =
                Fits-next s.epoch _ (kept_slot s 2) (kept_slot s 3) _ _ h.high refl fits.high_fits;
          },
          refl,
        )
]

-- A sweep while the log is on moves the session, which keeps its arrays' sizes.
pub swept :
    (d : Dbg) (w : Sweep)
    → d.enabled ≡ true
    → (pos_dbg_sweep d w).0 ≡ record d { session = (next_session d.session w).0 }
unfolding pos_dbg_sweep
swept d w on = ground arith

pub Keeps-IsFour : (s : Session) (w : Sweep) → Keeps s w → IsFour s
Keeps-IsFour s w (ka, kx, ky) = record { aids = ap length ka; xs = ap length kx; ys = ap length ky }

Keeps-selected : (s : Session) (w : Sweep) → Keeps s w → kept s ≡ selected w
Keeps-selected s w (ka, kx, ky) = rw (ka, kx, ky) refl

-- Every sweep of a capture is right, whatever was lost.
abbrev pub AllRight : List (Sweep × List Heard) → Type 0
AllRight = All (λ (t : Sweep × List Heard). All (IsRight t.0) t.1)

abbrev pub sweeps : List (Sweep × List Bool) → List Sweep
sweeps = map (λ (t : Sweep × List Bool). t.0)

begin_right :
    (d : Dbg) (h : Host) (w : Sweep) (arrives : List Bool) (rest : List (Sweep × List Bool))
    → d.enabled ≡ true
    → IsFour d.session
    → IsTypedSweep w
    → HostFits (next_session d.session w).0 h
    → ((d' : Dbg) (h' : Host)
        → d'.enabled ≡ true
        → IsFour d'.session
        → d'.session.have_set ≡ true
        → kept d'.session ≡ selected w
        → d'.session.epoch ≡ (next_session d.session w).0.epoch
        → HostFits d'.session h'
        → AllRight (capture d' h' rest))
    → AllRight (capture d h ((w, arrives) ∷ rest))
unfolding capture
begin_right d h w arrives rest on sized typed fits later =
    let s' = (next_session d.session w).0 in
    let k = next_session-Keeps d.session w sized in
    let moved = ap (λ (x : Dbg). x.session) (swept d w on) in
    let heard =
      listen-IsRight (pos_dbg_sweep d w).0.session w h arrives (pos_dbg_sweep d w).1
        (rw moved (k.0)) (rw moved fits) (sweep_says d w sized typed) in
    (
      heard.1,
      later (pos_dbg_sweep d w).0 _ (ap (λ (x : Dbg). x.enabled) (swept d w on) ∙ on)
          (rw moved (Keeps-IsFour s' w k.0)) (rw moved k.1) (rw moved (Keeps-selected s' w k.0))
          (rw moved refl) heard.0,
    )

capture_right :
    (d : Dbg) (h : Host) (last : List Slot) (ws : List (Sweep × List Bool))
    → d.enabled ≡ true
    → IsFour d.session
    → d.session.have_set ≡ true
    → kept d.session ≡ last
    → HostFits d.session h
    → All (λ (t : Sweep × List Bool). IsTypedSweep t.0) ws
    → d.session.epoch + set_changes last (sweeps ws) < 2 ^ 8
    → AllRight (capture d h ws)
unfolding capture set_changes
capture_right d h last [] on sized set keeps fits typed room = tt
capture_right d h last ((w, arrives) ∷ ws) on sized set keeps fits typed room =
    let known = rw (← keeps) at room in
    let room' : d.session.epoch + change d.session w + set_changes (selected w) (sweeps ws)
        < 2 ^ 8 =
      omega (arith, known) in
    let n = next_fits d.session w h sized set (omega arith) fits in
    begin_right d h w arrives ws on sized typed.0 n.0 (λ d' h' on' four' set' keeps' epoch' fits'.
      capture_right d' h' (selected w) ws on' four' set' keeps' fits' typed.1
        (rw (epoch', n.1) room'))

-- The first set of a session has the epoch 0.
first_epoch : (w : Sweep) → (next_session fresh w).0.epoch ≡ 0
unfolding next_session take_set differs
first_epoch w = ground arith

-- The tag after the command `dbg on`: an empty session.
abbrev pub switched_on : Dbg → Dbg
switched_on d = (pos_dbg_on_cmd d (dbg_prefix ++ on_text)).0

pub on_resets : (d : Dbg) → switched_on d ≡ record d { enabled = true; session = fresh }
unfolding pos_dbg_on_cmd
on_resets d = refl

-- A listener that starts with the session never gives a sweep the wrong anchors: from `dbg on`, with no
-- SET record heard before it, for sweeps of typed arguments whose selection changes fewer than 256
-- times after the first, and whichever of the records are lost, every SWEEP record that arrives tells its sweep's mask, tier, flags, ranges and residual, and
-- where the last two SET records heard are of its epoch they name the four anchors that the caller
-- had selected, with their coordinates.
pub captured_anchors :
    (d : Dbg) (first : Sweep) (arrives : List Bool) (rest : List (Sweep × List Bool))
    → IsTypedSweep first
    → All (λ (t : Sweep × List Bool). IsTypedSweep t.0) rest
    → set_changes (selected first) (sweeps rest) < 2 ^ 8
    → AllRight (capture (switched_on d) deaf ((first, arrives) ∷ rest))
captured_anchors d first arrives rest typed typeds room = rw (on_resets d) (
    begin_right (record d { enabled = true; session = fresh }) deaf first arrives rest refl
      (omega arith) typed (record { low_fits = tt; high_fits = tt })
      (λ d' h' on sized set keeps epoch fits.
        capture_right d' h' (selected first) rest on sized set keeps fits typeds
          (rw (epoch ∙ first_epoch first) (omega (arith, room)))))
