-- ===== src/Debug/Lossless.antt =====
-- A capture of which no record is lost.
use tag_testting.Common.{
  ℕ, ◌≡◌, refl, ◌∙◌, ap, ap₂, Bool, true, false, not, Option, some, List, [], ◌∷◌, ◌++◌, ◌==◌,
  if◌then◌else◌, All, Bool-cases, ==_iff, arith, inl, inr, map, replicate,
}
use tag_testting.Debug.Encode.{enc_sweep, sweep_len}
use tag_testting.Debug.Decode.{Reading, Slot, sweep, slots, decode}
use tag_testting.Debug.Session.{
  Session, Dbg, fresh, Line, raw, Sweep, differs, next_session, pos_dbg_sweep, log_set, log_raw,
  fields_of,
}
use tag_testting.Debug.Host.{Host, Heard, attribute, hear_record, hear, listen, selected, capture}
use tag_testting.Debug.Lines.{
  IsTypedSweep, IsFour, kept_slot, log_low_said, log_high_said, Keeps, next_session-Keeps,
  unchanged-Keeps, Tells, log_sweep_said, fields_of-IsTyped,
}
use tag_testting.Debug.Capture.{switched_on, on_resets, swept, Keeps-IsFour}

-- The listener's two pairs are the session's.
pub record Follows (s : Session) (h : Host) : Type 0 where
  pub low_known :
      h.low ≡ some (record { epoch = s.epoch; first = kept_slot s 0; second = kept_slot s 1 })
  pub high_known :
      h.high ≡ some (record { epoch = s.epoch; first = kept_slot s 2; second = kept_slot s 3 })

-- What is heard of a sweep: one reading, with the anchors that the caller had selected.
abbrev pub HeardWhole : Sweep → List Heard → Type 0
HeardWhole w heard = (r : Reading) × (heard ≡ (r, some (selected w)) ∷ []) × Tells w r

==_refl : (n : ℕ) → (n == n) ≡ true
==_refl n = (==_iff n n).1 refl

attribute_kept :
    (s : Session) (w : Sweep) (h : Host) (e : ℕ)
    → Keeps s w
    → Follows s h
    → e ≡ s.epoch
    → attribute e h.low h.high ≡ some (selected w)
unfolding attribute
attribute_kept s w h e (ka, kx, ky) f same =
    ap₂ (attribute e) f.low_known f.high_known
    ∙ rw (same, ==_refl s.epoch) (ground (arith, ka, kx, ky))

-- The sweep's line, to a listener that follows.
hear_sweep :
    (s : Session) (w : Sweep) (h : Host) (b : List ℕ) (r : Reading)
    → Keeps s w
    → Follows s h
    → decode b ≡ some (sweep r)
    → r.epoch ≡ s.epoch
    → Tells w r
    → Follows s (listen h [] (raw b ∷ [])).0 × HeardWhole w (listen h [] (raw b ∷ [])).1
unfolding listen hear hear_record
hear_sweep s w h b r k f d e t =
    rw d
      (f, (r, ap (λ (x : Option (List Slot)). (r, x) ∷ []) (attribute_kept s w h r.epoch k f e), t))

-- The two SET records make a listener follow.
hear_sets :
    (s : Session) (w : Sweep) (h : Host) (b0 b2 : List ℕ)
    → decode b0 ≡ some (slots s.epoch 0 (kept_slot s 0) (kept_slot s 1))
    → decode b2 ≡ some (slots s.epoch 2 (kept_slot s 2) (kept_slot s 3))
    → (ls : List Line)
    → ((h' : Host)
        → Follows s h'
        → Follows s (listen h' [] ls).0 × HeardWhole w (listen h' [] ls).1)
    → Follows s (listen h [] (raw b0 ∷ raw b2 ∷ ls)).0
      × HeardWhole w (listen h [] (raw b0 ∷ raw b2 ∷ ls)).1
unfolding listen hear hear_record
hear_sets s w h b0 b2 d0 d2 ls k =
    rw (d0, d2) (k _ (record { low_known = refl; high_known = refl }))

-- The three lines of a sweep in which the set changes, and the one of a sweep in which it does not.
abbrev Lines : Session → Bool → List Line → Type 0
Lines s true ls =
    (b0 : List ℕ) × (b2 : List ℕ) × (ls ≡ raw b0 ∷ raw b2 ∷ [])
    × (decode b0 ≡ some (slots s.epoch 0 (kept_slot s 0) (kept_slot s 1)))
    × (decode b2 ≡ some (slots s.epoch 2 (kept_slot s 2) (kept_slot s 3)))
Lines s false ls = ls ≡ []

sets-Lines :
    (s : Session) (w : Sweep) (changed : Bool)
    → Keeps s w
    → IsTypedSweep w
    → Lines s changed (if changed then log_set s 0 ++ log_set s 2 else [])
sets-Lines s w true k t =
    let (b0, e0, d0) = log_low_said s w k t in
    let (b2, e2, d2) = log_high_said s w k t in (b0, b2, rw (e0, e2) refl, d0, d2)
sets-Lines s w false k t = refl

hear_all :
    (s : Session) (w : Sweep) (h : Host) (changed : Bool) (ls last : List Line)
    → (changed ≡ false → Follows s h)
    → Lines s changed ls
    → ((h' : Host)
        → Follows s h'
        → Follows s (listen h' [] last).0 × HeardWhole w (listen h' [] last).1)
    → Follows s (listen h [] (ls ++ last)).0 × HeardWhole w (listen h [] (ls ++ last)).1
hear_all s w h true ls last f (b0, b2, e, d0, d2) k = rw e (hear_sets s w h b0 b2 d0 d2 last k)
hear_all s w h false ls last f e k = rw e (k h (f refl))

-- A sweep's lines while the log is on.
swept_lines :
    (d : Dbg) (w : Sweep)
    → d.enabled ≡ true
    → (pos_dbg_sweep d w).1
      ≡ (if (next_session d.session w).1
          then log_set (next_session d.session w).0 0 ++ log_set (next_session d.session w).0 2
          else [])
        ++ log_raw (
            enc_sweep
              (some (replicate 20 0))
              sweep_len
              (fields_of d (next_session d.session w).0 w))
unfolding pos_dbg_sweep
swept_lines d w on = ground arith

-- A session that found no change is the one before, but for the time and the number.
unchanged-Follows :
    (s : Session) (w : Sweep) (h : Host)
    → (s.have_set ≡ true → Follows s h)
    → IsFour s
    → (next_session s w).1 ≡ false
    → Follows (next_session s w).0 h
unfolding next_session
unchanged-Follows s w h f sized same = elim (Bool-cases (differs 4 0 s w (not s.have_set))) [
  | inl new ↦ absurd (ground (arith, new))
  | inr old ↦
      let g = f (unchanged-Keeps s w sized old).0 in
      rw old (record { low_known = g.low_known; high_known = g.high_known })
]

abbrev pub arriving : List Sweep → List (Sweep × List Bool)
arriving = map (λ w. (w, []))

capture_whole :
    (d : Dbg) (h : Host) (ws : List Sweep)
    → d.enabled ≡ true
    → IsFour d.session
    → (d.session.have_set ≡ true → Follows d.session h)
    → All IsTypedSweep ws
    → All (λ (t : Sweep × List Heard). HeardWhole t.0 t.1) (capture d h (arriving ws))
unfolding capture
capture_whole d h [] on sized f typed = tt
capture_whole d h (w ∷ ws) on sized f typed =
    let s' = (next_session d.session w).0 in
    let k = (next_session-Keeps d.session w sized).0 in
    let (b, e, said) = log_sweep_said (fields_of d s' w) (fields_of-IsTyped d s' w typed.0) in
    let heard =
      hear_all s' w h (next_session d.session w).1 _ _ (unchanged-Follows d.session w h f sized)
        (sets-Lines s' w (next_session d.session w).1 k typed.0)
        (λ h' g.
          rw e (hear_sweep s' w h' b _ k g said refl (refl, refl, refl, refl, refl, refl))) in
    rw (swept_lines d w on) (
      heard.1,
      capture_whole (pos_dbg_sweep d w).0 _ ws (ap (λ (x : Dbg). x.enabled) (swept d w on) ∙ on)
          (rw (swept d w on) (Keeps-IsFour s' w k)) (rw (swept d w on) (λ set. heard.0)) typed.1,
    )

-- If nothing is lost, after `dbg on` each sweep of typed arguments is heard as exactly one reading,
-- which tells its sweep and has the four anchors that the caller had selected, with their
-- coordinates: also over more than 256 changes of the selection.
pub capture_complete :
    (d : Dbg) (h : Host) (ws : List Sweep)
    → All IsTypedSweep ws
    → All (λ (t : Sweep × List Heard). HeardWhole t.0 t.1) (capture (switched_on d) h (arriving ws))
capture_complete d h ws typed = rw (on_resets d) (
    capture_whole (record d { enabled = true; session = fresh }) h ws refl (omega arith)
      (λ unset. absurd (ground (arith, unset))) typed)
