-- ===== src/PosCfg/Bounds.antt =====
-- The heights of src/pos_cfg.c stay in range, whatever the flash holds and whatever is typed.
use tag_testting.Common.{
  ℕ, ◌≡◌, refl, true, Option, none, some, List, [], ◌∷◌, ℤ, pos, ◌≤ℤ◌, drop, arith,
}
use tag_testting.Storage.{Nvs, Storage, storage_read}
use tag_testting.PosCfg.{
  PosCfg, PosRecord, Heights, defaults, heights_valid, checked, accepted, configure, pos_cfg_init,
  pos_cfg_set, h_max_cm, record_len, pos_cfg_nvs_id, signed16, bits16, from_bytes,
}
use tag_testting.PosCfg.Command.{set_heights, answer, skip_spaces, pos_cfg_on_cmd, parse_heights}

-- Both heights are between 0 and 1500 cm.
pub record InRange (h : Heights) : Type 0 where
  pub anchor_low : pos 0 ≤ℤ h.anchor_h_cm
  pub anchor_high : h.anchor_h_cm ≤ℤ pos h_max_cm
  pub tag_low : pos 0 ≤ℤ h.tag_h_cm
  pub tag_high : h.tag_h_cm ≤ℤ pos h_max_cm

valid-InRange : (h : Heights) → heights_valid h.anchor_h_cm h.tag_h_cm ≡ true → InRange h
unfolding heights_valid
valid-InRange h e = ground arith

checked-valid :
    (r : PosRecord) (got : ℕ) (h : Heights)
    → checked r got ≡ some h
    → heights_valid h.anchor_h_cm h.tag_h_cm ≡ true
unfolding checked
checked-valid r got h e = ground arith

accepted-valid :
    (o : Option (List ℕ × ℕ)) (h : Heights)
    → accepted o ≡ some h
    → heights_valid h.anchor_h_cm h.tag_h_cm ≡ true
unfolding accepted
accepted-valid none h e = cc
accepted-valid (some (b, got)) h e = checked-valid (from_bytes b) got h e

pub data PosOp : Type 0 where
  restart : PosOp
  command : List ℕ → PosOp

module _ (N : Nvs) where
  configure-InRange :
      (c : PosCfg N) (o : Option Heights)
      → ((h : Heights) → o ≡ some h → InRange h)
      → InRange (configure N c o).0.active
  unfolding configure
  configure-InRange c none f = omega arith
  configure-InRange c (some h) f = f h refl

  init-InRange : (c : PosCfg N) → InRange (pos_cfg_init N c).0.active
  unfolding pos_cfg_init
  init-InRange c =
      configure-InRange c (accepted (storage_read N c.storage pos_cfg_nvs_id record_len)) (λ h e.
        valid-InRange h (accepted-valid (storage_read N c.storage pos_cfg_nvs_id record_len) h e))

  set-InRange : (c : PosCfg N) (a t : ℤ) → InRange c.active → InRange (pos_cfg_set N c a t).0.active
  unfolding pos_cfg_set
  set-InRange c a t h = ground (arith, valid-InRange (record { anchor_h_cm = a; tag_h_cm = t }))

  set_heights-InRange :
      (c : PosCfg N) (a t : ℕ) → InRange c.active → InRange (set_heights N c a t).0.active
  unfolding set_heights
  set_heights-InRange c a t h =
      ground (arith, set-InRange c (signed16 (bits16 (pos a))) (signed16 (bits16 (pos t))) h)

  answer-InRange :
      (c : PosCfg N) (o : Option (ℕ × ℕ)) → InRange c.active → InRange (answer N c o).0.active
  unfolding answer
  answer-InRange c none h = h
  answer-InRange c (some (a, t)) h = set_heights-InRange c a t h

  command-InRange :
      (c : PosCfg N) (cmd : List ℕ) → InRange c.active → InRange (pos_cfg_on_cmd N c cmd).0.active
  unfolding pos_cfg_on_cmd
  command-InRange c cmd h =
      ground (arith, answer-InRange c (parse_heights (drop 2 (skip_spaces (drop 3 cmd)))) h)

  unfoldable pub run_ops : PosCfg N → List PosOp → PosCfg N
  run_ops c [] = c
  run_ops c (restart ∷ ops) = run_ops (pos_cfg_init N c).0 ops
  run_ops c (command cmd ∷ ops) = run_ops (pos_cfg_on_cmd N c cmd).0 ops

  ops-InRange :
      (c : PosCfg N) (ops : List PosOp) → InRange c.active → InRange (run_ops c ops).active
  unfolding run_ops
  ops-InRange c [] h = h
  ops-InRange c (restart ∷ ops) h = ops-InRange (pos_cfg_init N c).0 ops (init-InRange c)
  ops-InRange c (command cmd ∷ ops) h =
      ops-InRange (pos_cfg_on_cmd N c cmd).0 ops (command-InRange c cmd h)

  -- From the initial heights, whatever the flash holds and does, and whatever commands and resets
  -- come, both heights stay between 0 and 1500 cm.
  pub heights-InRange :
      (storage : Storage N) (ops : List PosOp)
      → InRange (run_ops (record { active = defaults; storage = storage }) ops).active
  heights-InRange storage ops = ops-InRange _ ops (omega arith)
