-- ===== src/PosCfg/Setting.antt =====
-- The command `pos z <anchor_cm> <tag_cm>` of src/pos_cfg.c, from its characters to the heights.
use tag_testting.Common.{
  ℕ, suc, ◌≡◌, refl, ◌∙◌, ap, ap₂, true, not, ◌&&◌, Option, some, List, [], ◌∷◌, ◌++◌, leb,
  if◌then◌else◌, replicate, Bool-cases, pos, arith, inl, inr,
}
use tag_testting.Storage.{Nvs}
use tag_testting.PosCfg.{PosCfg, Heights, heights_valid, pos_cfg_set}
use tag_testting.PosCfg.Command.{
  skip_spaces, PosReply, updated, usage, range, nvs, printed, set_heights, answer, pos_cfg_on_cmd,
  pos_prefix,
}
use tag_testting.PosCfg.Reload.{survive, set_done}
use tag_testting.PosCfg.Parsing.{number, Digits, parse_heights_lem, skip_all}

-- A command with the digits of both heights, and any number of spaces more than it needs.
abbrev pub typed : ℕ → ℕ → ℕ → ℕ → List ℕ → List ℕ → List ℕ
typed i j k n anchor tag =
    pos_prefix
    ++ (32
        ∷ (replicate i 32
            ++ (122
                ∷ 32
                ∷ (replicate j 32
                    ++ (anchor ++ (replicate (suc k) 32 ++ (tag ++ (replicate n 32 ++ []))))))))

-- What the command is to do with the numbers.
abbrev pub outcome : (N : Nvs) → PosCfg N → ℕ → ℕ → PosCfg N × Option PosReply
outcome N c a t =
    if leb a 100000 && leb t 100000
    then if leb a 1500 && leb t 1500
      then (
        (pos_cfg_set N c (pos a) (pos t)).0,
        some (if (pos_cfg_set N c (pos a) (pos t)).1 then updated a t else nvs),
      )
      else (c, some range)
    else (c, some usage)

valid_heights : (a t : ℕ) → heights_valid (pos a) (pos t) ≡ (leb a 1500 && leb t 1500)
unfolding heights_valid
valid_heights a t = ground arith

printed_lem :
    (a t : ℕ) → (leb a 1500 && leb t 1500) ≡ true → (printed (pos a) ≡ a) × (printed (pos t) ≡ t)
unfolding printed
printed_lem a t h = ground arith

module _ (N : Nvs) (c : PosCfg N) where
  done_outcome :
      (a t : ℕ)
      → (leb a 1500 && leb t 1500) ≡ true
      → ◌≡◌ {A = PosCfg N × PosReply}
          (
            (pos_cfg_set N c (pos a) (pos t)).0,
            if not (pos_cfg_set N c (pos a) (pos t)).1
                then nvs
                else updated
                    (printed (pos_cfg_set N c (pos a) (pos t)).0.active.anchor_h_cm)
                    (printed (pos_cfg_set N c (pos a) (pos t)).0.active.tag_h_cm),
          )
          (
            (pos_cfg_set N c (pos a) (pos t)).0,
            if (pos_cfg_set N c (pos a) (pos t)).1 then updated a t else nvs,
          )
  done_outcome a t good = elim (Bool-cases (pos_cfg_set N c (pos a) (pos t)).1) [
    | inr failed ↦ rw failed refl
    | inl done ↦
        let r = pos_cfg_set N c (pos a) (pos t) in
        let kept = ap (λ (x : PosCfg N). x.active) (set_done N c (pos a) (pos t) done).2 in
        let shown_a = ap (λ (x : Heights). printed x.anchor_h_cm) kept ∙ (printed_lem a t good).0 in
        let shown_t = ap (λ (x : Heights). printed x.tag_h_cm) kept ∙ (printed_lem a t good).1 in
        rw done (ap (λ x. (r.0, x)) (ap₂ updated shown_a shown_t))
  ]

  set_outcome :
      (a t : ℕ)
      → set_heights N c a t ≡ (
          if leb a 1500 && leb t 1500
          then (
            (pos_cfg_set N c (pos a) (pos t)).0,
            if (pos_cfg_set N c (pos a) (pos t)).1 then updated a t else nvs,
          )
          else (c, range))
  unfolding set_heights
  set_outcome a t = elim (Bool-cases (leb a 1500 && leb t 1500)) [
    | inr bad ↦ rw (valid_heights a t, bad) refl
    | inl good ↦
        let v = valid_heights a t ∙ good in
        let s = survive (pos a) (pos t) v in rw (v, good, s.0, s.1) (done_outcome a t good)
  ]

  outcome_lem :
      (a t : ℕ)
      → ◌≡◌ {A = PosCfg N × Option PosReply}
          ((set_heights N c a t).0, some (set_heights N c a t).1)
          (if leb a 1500 && leb t 1500
            then (
              (pos_cfg_set N c (pos a) (pos t)).0,
              some (if (pos_cfg_set N c (pos a) (pos t)).1 then updated a t else nvs),
            )
            else (c, some range))
  outcome_lem a t =
      ap (λ (r : PosCfg N × PosReply). (r.0, some r.1)) (set_outcome a t)
      ∙ elim (Bool-cases (leb a 1500 && leb t 1500)) [
        | inl good ↦ rw good refl
        | inr bad ↦ rw bad refl
      ]

  -- A command `pos z` with two numbers, in any number of digits and with any spaces around them: if
  -- both are at most 1500 they are set and the reply says them, or says that the flash refused the
  -- write; if not, but both are at most 100000, it says that they are out of range, and else how
  -- the command is used, and nothing changes.
  pub pos_command :
      (i j k n d e : ℕ) (ds es : List ℕ)
      → Digits (d ∷ ds)
      → Digits (e ∷ es)
      → pos_cfg_on_cmd N c (typed i j k n (d ∷ ds) (e ∷ es))
        ≡ outcome N c (number 0 (d ∷ ds)) (number 0 (e ∷ es))
  unfolding pos_cfg_on_cmd answer skip_spaces
  pos_command i j k n d e ds es h g =
      let a = number 0 (d ∷ ds) in
      let t = number 0 (e ∷ es) in
      let z =
        32
        ∷ (replicate j 32
            ++ (d ∷ ds ++ (replicate (suc k) 32 ++ (e ∷ es ++ (replicate n 32 ++ []))))) in
      rw (skip_all i (122 ∷ z)) (
        ap (answer N c) (parse_heights_lem j k n d e ds es h g)
        ∙ elim (Bool-cases (leb a 100000 && leb t 100000)) [
          | inr big ↦ rw big refl
          | inl small ↦ rw small (outcome_lem a t)
        ])
