-- ===== src/Runner/Sweeps.antt =====
-- When the superframes of src/uwb_net_runner.c sweep, and in which slot.
use mathlib.Core.List.{append-nil}
use tag_testting.Common.{
  ℕ, ◌≡◌, ◌⊎◌, inl, inr, ◌∙◌, refl, sym, ap, Bool, true, false, Option, none, some, List, [], ◌∷◌,
  ◌++◌, length, arith, u8,
}
use tag_testting.Storage.{Nvs}
use tag_testting.Alert.Persist.{tag_alert_active}
use tag_testting.Cal.Store.{cal_is_valid}
use tag_testting.Frame.Beacon.{Beacon, parse_beacon, beacon_find_addr}
use tag_testting.Frame.Header.{Result, ok, err}
use tag_testting.Net.Act
use tag_testting.Net.Tiers.{Table}
use tag_testting.Net.Machine.{Event, Ctx, handle, lease_age}
use tag_testting.Net.Machine.EvKind.{beacon}
use tag_testting.Runner.{Runner, Turn}
use tag_testting.Runner.Effect.{sweeps}
use tag_testting.Runner.Listen.{Aim, sense, learn, sense_miss, beacon_event, climb, decide, is_scan}
use tag_testting.Runner.Exchange.{
  has, slot_start, join_part, keepalive_part, alert_part, quiet, discover_part, sweep_part,
  sleep_part, act_out,
}
use tag_testting.Runner.Superframe.{hear, react, superframe}
use tag_testting.Runner.Effects.{
  pick, pick-append, pick_local, is_sweep_tx, is_sweep_tx-OfTx, local-hear,
}
use tag_testting.Runner.Flags.{has-mask, cleared-mask, sweep-gate_actions, flags-join_part}

-- A word of the machine that sweeps is for a beacon that lists the tag; it asks for no join and no
-- discovery, and leaves the listed slot in the context.
sweep_word :
    (tbl : Table) (c : Ctx) (ev : Event)
    → has (handle tbl c ev).1 Act.run_sweep ≡ true
    → (ev.kind ≡ beacon)
      × (ev.in_map ≡ true)
      × ((handle tbl c ev).0.slot_index ≡ ev.map_slot)
      × (has (handle tbl c ev).1 Act.send_join ≡ false)
      × (has (handle tbl c ev).1 Act.run_discover ≡ false)
unfolding handle lease_age
sweep_word tbl c ev h = ground arith

-- A place in a map that was found.
place :
    (found : Option ℕ)
    → elim found [ none ↦ false | some i ↦ true ] ≡ true
    → (i : ℕ) × (found ≡ some i) × (elim found [ none ↦ 0 | some i ↦ u8 i ] ≡ u8 i)
place none h = absurd (ground arith)
place (some i) h = (i, refl, refl)

module _ (N : Nvs) where
  sweep-decide :
      (r : Runner N) (ev : Event) (scanning : Bool)
      → let (r', act) = decide N r ev scanning in
        has act Act.run_sweep ≡ true
        → (cal_is_valid N r.cal ≡ true)
          × (ev.kind ≡ beacon)
          × (ev.in_map ≡ true)
          × (r'.ctx.slot_index ≡ ev.map_slot)
          × (has act Act.send_join ≡ false)
          × (has act Act.run_discover ≡ false)
  unfolding decide climb Act.gate_actions
  sweep-decide r ev scanning h =
      let ev' = record ev { alert_pending = tag_alert_active N r.alert } in
      let climbed = climb N r ev' scanning in
      ground (
        arith,
        sweep-gate_actions (handle r.tiers climbed.ctx ev').1,
        sweep_word r.tiers climbed.ctx ev',
      )

  -- The beacon that a sweep follows, and the tag's place in it.
  abbrev pub Listed : ℕ → Option (List ℕ × ℕ) → ℕ → Type 0
  Listed short_addr got slot =
      (buf : List ℕ) × (ms : ℕ) × (b : Beacon) × (i : ℕ) × (got ≡ some (buf, ms))
      × (parse_beacon buf (length buf) ≡ ok b)
      × (beacon_find_addr (some b.slot_map) b.n_slots short_addr ≡ some i)
      × (slot ≡ u8 i)

  Listed-event :
      (b : Beacon) (short_addr : ℕ)
      → (beacon_event b short_addr).in_map ≡ true
      → (i : ℕ) × (beacon_find_addr (some b.slot_map) b.n_slots short_addr ≡ some i)
        × ((beacon_event b short_addr).map_slot ≡ u8 i)
  unfolding beacon_event
  Listed-event b short_addr h = place (beacon_find_addr (some b.slot_map) b.n_slots short_addr) h

  Listed-learn :
      (r : Runner N) (t : Turn N) (a : Aim) (buf : List ℕ) (ms : ℕ) (parsed : Result Beacon)
      → parse_beacon buf (length buf) ≡ parsed
      → (learn N r t a ms parsed).1.kind ≡ beacon
      → (learn N r t a ms parsed).1.in_map ≡ true
      → Listed r.ctx.short_addr (some (buf, ms)) (learn N r t a ms parsed).1.map_slot
  unfolding learn sense_miss
  Listed-learn r t a buf ms (err e) p h k = absurd (ground arith)
  Listed-learn r t a buf ms (ok b) p h k =
      let found = Listed-event b r.ctx.short_addr k in
      (buf, ms, b, found.0, refl, p, found.1, found.2)

  Listed-sense :
      (r : Runner N) (t : Turn N) (a : Aim) (got : Option (List ℕ × ℕ))
      → (sense N r t a got).1.kind ≡ beacon
      → (sense N r t a got).1.in_map ≡ true
      → Listed r.ctx.short_addr got (sense N r t a got).1.map_slot
  unfolding sense sense_miss
  Listed-sense r t a none h k = absurd (ground arith)
  Listed-sense r t a (some (buf, ms)) h k =
      Listed-learn r t a buf ms (parse_beacon buf (length buf)) refl h k

  cal-sense :
      (r : Runner N) (t : Turn N) (a : Aim) (got : Option (List ℕ × ℕ))
      → (sense N r t a got).0.cal ≡ r.cal
  unfolding sense
  cal-sense r t a got = ground arith

  -- What the sweep flag says after `react`.
  sweep-react :
      (r : Runner N) (t : Turn N) (a : Aim) (got : Option (List ℕ × ℕ))
      → let (r', act) = react N r t a got in
        has act Act.run_sweep ≡ true
        → (cal_is_valid N r.cal ≡ true)
          × Listed r.ctx.short_addr got r'.ctx.slot_index
          × (has act Act.send_join ≡ false)
          × (has act Act.run_discover ≡ false)
  unfolding react
  sweep-react r t a got h =
      let (r', ev) = sense N r t a got in
      let d = sweep-decide r' ev (is_scan r.ctx.state) h in
      let l = Listed-sense r t a got d.1 d.2 in
      (
        ap (cal_is_valid N) (sym (cal-sense r t a got)) ∙ d.0,
        (l.0, l.1, l.2, l.3, l.4, l.5, l.6, d.3 ∙ l.7),
        d.4,
        d.5,
      )

  quiet_lem :
      (r : Runner N) (act : ℕ)
      → (has (quiet N r act) Act.run_sweep ≡ has act Act.run_sweep)
        × (has act Act.run_discover ≡ false → has (quiet N r act) Act.run_discover ≡ false)
  unfolding quiet
  quiet_lem r act = ground (
    arith,
    has-mask act 0xffff_fffb Act.run_sweep refl,
    cleared-mask act 0xffff_fffb Act.run_discover refl,
  )

  skips-join_part :
      (r : Runner N) (t : Turn N) (act : ℕ)
      → (pick is_sweep_tx (join_part N r t act).2 ≡ [])
        × (has act Act.send_join ≡ false → (join_part N r t act).0 ≡ r)
        × (has act Act.send_join ≡ false → (join_part N r t act).1 ≡ act)
  unfolding join_part pick is_sweep_tx
  skips-join_part r t act = ground arith

  skips-keepalive_part :
      (r : Runner N) (t : Turn N) (act : ℕ) → pick is_sweep_tx (keepalive_part N r t act) ≡ []
  unfolding keepalive_part pick is_sweep_tx
  skips-keepalive_part r t act = ground arith

  skips-alert_part :
      (r : Runner N) (t : Turn N) (act : ℕ)
      → (pick is_sweep_tx (alert_part N r t act).1 ≡ []) × ((alert_part N r t act).0.ctx ≡ r.ctx)
  unfolding alert_part pick is_sweep_tx
  skips-alert_part r t act = ground arith

  skips-discover_part :
      (r : Runner N) (t : Turn N) (act : ℕ)
      → (pick is_sweep_tx (discover_part N r t act).1 ≡ [])
        × (has act Act.run_discover ≡ false → (discover_part N r t act).0 ≡ r)
  unfolding discover_part pick is_sweep_tx
  skips-discover_part r t act = ground arith

  skips-sleep_part :
      (r : Runner N) (t : Turn N) (act : ℕ) → pick is_sweep_tx (sleep_part N r t act).1 ≡ []
  unfolding sleep_part pick is_sweep_tx
  skips-sleep_part r t act = ground arith

  slot-sweep_part :
      (r : Runner N) (t : Turn N) (act : ℕ)
      → (pick is_sweep_tx (sweep_part N r t act).1 ≡ [])
        ⊎ ((has act Act.run_sweep ≡ true)
            × (pick is_sweep_tx (sweep_part N r t act).1
                ≡ sweeps (slot_start t.t0_ms r.ctx.slot_index) ∷ []))
  unfolding sweep_part pick is_sweep_tx
  slot-sweep_part r t act = ground arith

  slot-act_out :
      (r : Runner N) (t : Turn N) (act : ℕ)
      → (has act Act.run_sweep ≡ true → has act Act.run_discover ≡ false)
      → (pick is_sweep_tx (act_out N r t act).1 ≡ [])
        ⊎ ((has act Act.run_sweep ≡ true)
            × (pick is_sweep_tx (act_out N r t act).1
                ≡ sweeps (slot_start t.t0_ms r.ctx.slot_index) ∷ []))
  unfolding act_out
  slot-act_out r t act h =
      let kept = keepalive_part N r t act in
      let (r1, alerted) = alert_part N r t act in
      let act' = quiet N r1 act in
      let (r2, found) = discover_part N r1 t act' in
      let (r3, ranged) = sweep_part N r2 t act' in
      let slept = (sleep_part N r3 t act').1 in
      rw
        (
          pick-append is_sweep_tx (kept ++ alerted ++ found ++ ranged) slept,
          pick-append is_sweep_tx (kept ++ alerted ++ found) ranged,
          pick-append is_sweep_tx (kept ++ alerted) found,
          pick-append is_sweep_tx kept alerted,
          skips-keepalive_part r t act,
          (skips-alert_part r t act).0,
          (skips-discover_part r1 t act').0,
          skips-sleep_part r3 t act',
          append-nil (pick is_sweep_tx ranged),
        )
        (elim (slot-sweep_part r2 t act') [
          | inl none_there ↦ inl none_there
          | inr (swept, slot) ↦
              let flag = sym (quiet_lem r1 act).0 ∙ swept in
              let same =
                ap (λ x. x.ctx) ((skips-discover_part r1 t act').1 ((quiet_lem r1 act).1 (h flag)))
                ∙ (skips-alert_part r t act).1 in
              inr (flag, slot ∙ ap (λ c. sweeps (slot_start t.t0_ms c.slot_index) ∷ []) same)
        ])

  -- A superframe sweeps at most once, and then with a valid calibration, after a beacon whose slot map
  -- lists the tag's short address, from the start of the slot where the map lists it.
  pub sweep_in_slot :
      (r : Runner N) (t : Turn N)
      → let (r1, aimed, got, heard) = hear N r t in
        (pick is_sweep_tx (superframe N r t).1 ≡ [])
        ⊎ ((cal_is_valid N r1.cal ≡ true)
            × (slot : ℕ) × Listed r1.ctx.short_addr got slot
            × (pick is_sweep_tx (superframe N r t).1 ≡ sweeps (slot_start t.t0_ms slot) ∷ []))
  unfolding superframe
  sweep_in_slot r t =
      let (r1, aimed, got, heard) = hear N r t in
      let (r2, act) = react N r1 t aimed got in
      let (r3, act', joined) = join_part N r2 t act in
      let done = (act_out N r3 t act').1 in
      let join = skips-join_part r2 t act in
      let kept = (flags-join_part N r2 t act).1 in
      rw
        (
          pick-append is_sweep_tx (heard ++ joined) done,
          pick-append is_sweep_tx heard joined,
          pick_local is_sweep_tx heard is_sweep_tx-OfTx (local-hear N r t),
          join.0,
        )
        (elim (slot-act_out r3 t act' (λ h.
          let facts = sweep-react r1 t aimed got (sym kept ∙ h) in
          ap (λ x. has x Act.run_discover) (join.2 facts.2) ∙ facts.3)) [
            | inl none_there ↦ inl none_there
            | inr (swept, slot) ↦
                let facts = sweep-react r1 t aimed got (sym kept ∙ swept) in
                inr (
                  facts.0,
                  r2.ctx.slot_index,
                  facts.1,
                  slot
                      ∙ ap (λ x. sweeps (slot_start t.t0_ms x.ctx.slot_index) ∷ [])
                          (join.1 facts.2),
                )
          ])
