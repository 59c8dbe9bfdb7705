-- ===== src/Debug/Session.antt =====
-- The session of src/pos_dbg.c: the flags, the record of the last set, the commands and the emit path.
-- What a call hands to `ble_log_send`, `twr_log` and `twr_log_raw` is the list of its lines.
use tag_testting.Common.{
  ℕ, zero, suc, ◌+◌, Bool, true, false, not, ◌||◌, Option, none, some, List, [], ◌∷◌, ◌++◌, ltb,
  leb, ◌==◌, if◌then◌else◌, u8, u16, sub32, get_or, take, drop, replicate, bytes_eq,
}
use tag_testting.Debug.Encode.{
  SweepFields, dt_ovf, aid_none, sweep_len, mark_len, enc_sweep, enc_set, enc_mark,
}

-- The anonymous struct `session`.
pub record Session : Type 0 where
  pub have_prev_ms : Bool
  pub prev_ms : ℕ
  pub seq : ℕ
  pub last_seq : ℕ
  pub have_set : Bool
  pub epoch : ℕ
  pub set_aid : List ℕ
  pub set_ax : List ℕ
  pub set_ay : List ℕ
  pub mark_id : ℕ

-- The statics of the file.
pub record Dbg : Type 0 where
  pub enabled : Bool
  pub quality_enabled : Bool
  pub session : Session

-- `session` after the `memset` of `reset_session`, and at boot
abbrev pub fresh : Session
fresh = record {
  have_prev_ms = false;
  prev_ms = 0;
  seq = 0;
  last_seq = 0;
  have_set = false;
  epoch = 0;
  set_aid = 0 ∷ 0 ∷ 0 ∷ 0 ∷ [];
  set_ax = 0 ∷ 0 ∷ 0 ∷ 0 ∷ [];
  set_ay = 0 ∷ 0 ∷ 0 ∷ 0 ∷ [];
  mark_id = 0;
}

-- `reset_session`
unfoldable pub reset_session : Dbg → Dbg
reset_session d = record d { session = fresh }

-- `pos_dbg_enabled`
unfoldable pub pos_dbg_enabled : Dbg → Bool
pos_dbg_enabled d = d.enabled

-- `pos_dbg_quality_enabled`
unfoldable pub pos_dbg_quality_enabled : Dbg → Bool
pos_dbg_quality_enabled d = d.quality_enabled

pub data Text : Type 0 where
  dbg_on dbg_off q_on q_off usage : Text
  marked : ℕ → Text

pub data Line : Type 0 where
  say : Text → Line
  raw : List ℕ → Line

-- `if (n > 0) twr_log_raw(buf, n)`
unfoldable pub log_raw : Option (List ℕ) × ℕ → List Line
log_raw (none, n) = []
log_raw (some buf, n) = if ltb 0 n then raw (take n buf) ∷ [] else []

-- The local `buf[POS_DBG_REC_MAX]`, whose first bytes an encoder fills before they are sent.
abbrev pub scratch : Option (List ℕ)
scratch = some (replicate 20 0)

-- The characters of `dbg`
abbrev pub dbg_prefix : List ℕ
dbg_prefix = 100 ∷ 98 ∷ 103 ∷ []

-- ` on`, ` off`, ` q on`, ` q off`, ` mark`
abbrev pub on_text : List ℕ
on_text = 32 ∷ 111 ∷ 110 ∷ []

abbrev pub off_text : List ℕ
off_text = 32 ∷ 111 ∷ 102 ∷ 102 ∷ []

abbrev pub q_on_text : List ℕ
q_on_text = 32 ∷ 113 ∷ 32 ∷ 111 ∷ 110 ∷ []

abbrev pub q_off_text : List ℕ
q_off_text = 32 ∷ 113 ∷ 32 ∷ 111 ∷ 102 ∷ 102 ∷ []

abbrev pub mark_text : List ℕ
mark_text = 32 ∷ 109 ∷ 97 ∷ 114 ∷ 107 ∷ []

-- `dbg mark`
unfoldable pub put_mark : Dbg → Dbg × List Line
unfolding enc_mark log_raw
put_mark d =
    let id = u8 (d.session.mark_id + 1) in
    let session' = record (d.session) { mark_id = id } in
    (
      record d { session = session' },
      log_raw (enc_mark (some (replicate 4 0)) mark_len d.session.last_seq id)
          ++ say (marked id) ∷ [],
    )

-- `pos_dbg_on_cmd`: whether the command was consumed, and the lines of the reply
unfoldable pub pos_dbg_on_cmd : Dbg → List ℕ → Dbg × Bool × List Line
unfolding reset_session put_mark
pos_dbg_on_cmd d cmd =
    if not (bytes_eq (take 3 cmd) dbg_prefix)
    then (d, false, [])
    else if bytes_eq cmd (dbg_prefix ++ on_text)
    then (record (reset_session d) { enabled = true }, true, say dbg_on ∷ [])
    else if bytes_eq cmd (dbg_prefix ++ off_text)
    then (record d { enabled = false }, true, say dbg_off ∷ [])
    else if bytes_eq cmd (dbg_prefix ++ q_on_text)
    then (record d { quality_enabled = true }, true, say q_on ∷ [])
    else if bytes_eq cmd (dbg_prefix ++ q_off_text)
    then (record d { quality_enabled = false }, true, say q_off ∷ [])
    else if bytes_eq cmd (dbg_prefix ++ mark_text)
    then ((put_mark d).0, true, (put_mark d).1)
    else (d, true, say usage ∷ [])

-- The arguments of `pos_dbg_sweep`.
pub record Sweep : Type 0 where
  pub now_ms : ℕ
  pub aid : Option (List ℕ)
  pub ax_cm : Option (List ℕ)
  pub ay_cm : Option (List ℕ)
  pub r_cm : Option (List ℕ)
  pub q : Option (List ℕ)
  pub mask : ℕ
  pub tier : ℕ
  pub moving : Bool
  pub solved : Bool
  pub res_cm : ℕ

-- `aid ? aid[i] : POS_DBG_AID_NONE` and the like
abbrev pub or_default : Option (List ℕ) → ℕ → ℕ → ℕ
or_default none d i = d
or_default (some xs) d i = get_or xs i 0

-- The time field: the overflow mark without a record before it.
unfoldable pub dt_of : Session → ℕ → ℕ
dt_of s now_ms =
    if s.have_prev_ms
    then (let diff = sub32 now_ms s.prev_ms in if leb dt_ovf diff then dt_ovf else u16 diff)
    else dt_ovf

-- One round of the loop that looks for a change.
unfoldable pub slot_differs : Session → Sweep → ℕ → Bool
slot_differs s w i =
    not (or_default w.aid aid_none i == get_or s.set_aid i 0)
    || not (or_default w.ax_cm 0 i == get_or s.set_ax i 0)
    || not (or_default w.ay_cm 0 i == get_or s.set_ay i 0)

-- The loop, with the rounds left.
unfoldable pub differs : ℕ → ℕ → Session → Sweep → Bool → Bool
unfolding slot_differs
differs zero i s w changed = changed
differs (suc n) i s w changed = differs n (i + 1) s w (if slot_differs s w i then true else changed)

-- An array of the session after the loop that fills its four elements.
abbrev pub filled : Option (List ℕ) → ℕ → List ℕ
filled xs d = or_default xs d 0 ∷ or_default xs d 1 ∷ or_default xs d 2 ∷ or_default xs d 3 ∷ []

-- The session after a change of the set, before its records go out.
unfoldable pub take_set : Session → Sweep → Session
take_set s w = record s {
  epoch = if s.have_set then u8 (s.epoch + 1) else s.epoch;
  set_aid = filled w.aid aid_none;
  set_ax = filled w.ax_cm 0;
  set_ay = filled w.ay_cm 0;
  have_set = true;
}

-- The SET record of one base.
unfoldable pub log_set : Session → ℕ → List Line
unfolding enc_set log_raw
log_set s base = log_raw (
    enc_set scratch sweep_len s.epoch base (some (drop base s.set_aid)) (some (drop base s.set_ax))
      (some (drop base s.set_ay)))

-- The session of a sweep: its time, its number, and the set if it changed.
unfoldable pub next_session : Session → Sweep → Session × Bool
unfolding differs take_set
next_session s w =
    let counted = record s {
      prev_ms = w.now_ms;
      have_prev_ms = true;
      seq = u8 (s.seq + 1);
      last_seq = s.seq;
    } in
    let changed = differs 4 0 s w (not s.have_set) in
    if changed then (take_set counted w, true) else (counted, false)

-- The arguments of the encoder for a sweep.
abbrev pub fields_of : Dbg → Session → Sweep → SweepFields
fields_of d s' w = record {
  seq = d.session.seq;
  dt_ms = dt_of d.session w.now_ms;
  epoch = s'.epoch;
  mask = w.mask;
  tier = w.tier;
  moving = w.moving;
  solved = w.solved;
  r_cm = w.r_cm;
  q = if d.quality_enabled then w.q else none;
  res_cm = w.res_cm;
}

-- `pos_dbg_sweep`
unfoldable pub pos_dbg_sweep : Dbg → Sweep → Dbg × List Line
unfolding next_session log_set log_raw enc_sweep
pos_dbg_sweep d w =
    if not d.enabled
    then (d, [])
    else (let (s', changed) = next_session d.session w in
        let sets = if changed then log_set s' 0 ++ log_set s' 2 else [] in
        (
          record d { session = s' },
          sets ++ log_raw (enc_sweep scratch sweep_len (fields_of d s' w)),
        ))
