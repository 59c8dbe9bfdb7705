-- ===== src/Debug/Host.antt =====
-- The listener of src/pos_dbg.h: it keeps the last SET record of each base and gives a sweep its
-- anchors if both are of the sweep's epoch. Notifications can be lost on the way.
use tag_testting.Common.{
  ℕ, ◌+◌, ◌&&◌, Bool, true, false, Option, none, some, List, [], ◌∷◌, ◌++◌, ◌==◌, if◌then◌else◌,
}
use tag_testting.Debug.Decode.{Reading, Slot, Record, sweep, slots, mark, decode}
use tag_testting.Debug.Encode.{aid_none}
use tag_testting.Debug.Session.{Dbg, Line, say, raw, Sweep, or_default, pos_dbg_sweep}

-- The epoch and the slots of the last SET record of one base.
pub record Pair : Type 0 where
  pub epoch : ℕ
  pub first : Slot
  pub second : Slot

pub record Host : Type 0 where
  pub low : Option Pair
  pub high : Option Pair

abbrev pub deaf : Host
deaf = record { low = none; high = none }

-- A reading, with the four anchors of its slots if the listener knows them.
abbrev pub Heard : Type 0
Heard = Reading × Option (List Slot)

abbrev pub joined : ℕ → Pair → Pair → Option (List Slot)
joined epoch l h =
    if l.epoch == epoch
    then if h.epoch == epoch then some (l.first ∷ l.second ∷ h.first ∷ h.second ∷ []) else none
    else none

unfoldable pub attribute : ℕ → Option Pair → Option Pair → Option (List Slot)
attribute epoch (some l) (some h) = joined epoch l h
attribute epoch _ _ = none

unfoldable pub hear_record : Host → Option Record → Host × List Heard
unfolding attribute
hear_record h none = (h, [])
hear_record h (some (slots epoch base a b)) =
    let p : Pair = record { epoch = epoch; first = a; second = b } in
    if base == 0 then (record h { low = some p }, []) else (record h { high = some p }, [])
hear_record h (some (sweep r)) = (h, (r, attribute r.epoch h.low h.high) ∷ [])
hear_record h (some (mark seq id)) = (h, [])

unfoldable pub hear : Host → Line → Host × List Heard
unfolding hear_record
hear h (say t) = (h, [])
hear h (raw b) = hear_record h (decode b)

-- What the listener makes of the lines that arrive, of those that are sent: a false loses one.
unfoldable pub listen : Host → List Bool → List Line → Host × List Heard
unfolding hear
listen h arrives [] = (h, [])
listen h [] (l ∷ ls) =
    let (h', heard) = hear h l in let (h'', later) = listen h' [] ls in (h'', heard ++ later)
listen h (true ∷ arrives) (l ∷ ls) =
    let (h', heard) = hear h l in let (h'', later) = listen h' arrives ls in (h'', heard ++ later)
listen h (false ∷ arrives) (l ∷ ls) = listen h arrives ls

-- The anchors that the caller of `pos_dbg_sweep` has selected.
abbrev pub selected_slot : Sweep → ℕ → Slot
selected_slot w i = record {
  aid = or_default w.aid aid_none i;
  x = or_default w.ax_cm 0 i;
  y = or_default w.ay_cm 0 i;
}

abbrev pub selected : Sweep → List Slot
selected w = selected_slot w 0 ∷ selected_slot w 1 ∷ selected_slot w 2 ∷ selected_slot w 3 ∷ []

unfoldable pub slot_eq : Slot → Slot → Bool
slot_eq a b = a.aid == b.aid && a.x == b.x && a.y == b.y

unfoldable pub slots_eq : List Slot → List Slot → Bool
unfolding slot_eq
slots_eq [] [] = true
slots_eq (a ∷ rest) (b ∷ bs) = slot_eq a b && slots_eq rest bs
slots_eq _ _ = false

-- How often the selection changes over some sweeps, from the one before them.
unfoldable pub set_changes : List Slot → List Sweep → ℕ
set_changes last [] = 0
set_changes last (w ∷ ws) =
    (if slots_eq last (selected w) then 0 else 1) + set_changes (selected w) ws

-- A capture: each sweep with which of its lines arrive, and with what the listener hears of it.
unfoldable pub capture : Dbg → Host → List (Sweep × List Bool) → List (Sweep × List Heard)
capture d h [] = []
capture d h ((w, arrives) ∷ rest) =
    let (d', lines) = pos_dbg_sweep d w in
    let (h', heard) = listen h arrives lines in (w, heard) ∷ capture d' h' rest
