-- ===== src/PosCfg/Tests.antt =====
-- Runs of src/pos_cfg.c, and its theorems at concrete inputs.
use tag_testting.Common.{◌≡◌, refl, true, none, some, [], ◌∷◌, pos}
use tag_testting.Storage.{Storage, storage_write}
use tag_testting.Storage.Memory.{memory, memory-IsLawful}
use tag_testting.PosCfg.{PosCfg, defaults, pos_cfg_init, pos_cfg_set}
use tag_testting.PosCfg.Command.{parse_cm, after_digits, cm_digits, skip_spaces, pos_cfg_on_cmd}
use tag_testting.PosCfg.Reload.{init-set}
use tag_testting.PosCfg.Parsing.{number}
use tag_testting.PosCfg.Setting.{typed, outcome, pos_command}

abbrev empty : Storage memory
empty = record { fs = λ id. none; fs_ready = true }

abbrev at_boot : PosCfg memory
at_boot = record { active = defaults; storage = empty }

-- `66036` is out of range, where a cast alone would make it 500.
wide : parse_cm (54 ∷ 54 ∷ 48 ∷ 51 ∷ 54 ∷ []) ≡ some (66036, [])
unfolding parse_cm after_digits cm_digits skip_spaces
wide = refl

capped : parse_cm (49 ∷ 48 ∷ 48 ∷ 48 ∷ 48 ∷ 48 ∷ 49 ∷ []) ≡ none
unfolding parse_cm after_digits cm_digits skip_spaces
capped = refl

-- `300` and `95`
pos_command_example :
    pos_cfg_on_cmd memory at_boot (typed 0 0 0 1 (51 ∷ 48 ∷ 48 ∷ []) (57 ∷ 53 ∷ []))
    ≡ outcome memory at_boot 300 95
unfolding number
pos_command_example =
    pos_command memory at_boot 0 0 0 1 51 57 (48 ∷ 48 ∷ []) (53 ∷ []) (refl, (refl, (refl, tt)))
      (refl, (refl, tt))

abbrev after_set : PosCfg memory
after_set = (pos_cfg_set memory at_boot (pos 300) (pos 95)).0

set_here : (pos_cfg_set memory at_boot (pos 300) (pos 95)).1 ≡ true
unfolding pos_cfg_set storage_write
set_here = refl

init-set_example :
    (after_set.active ≡ record { anchor_h_cm = pos 300; tag_h_cm = pos 95 })
    × ((pos_cfg_init memory (record { active = defaults; storage = after_set.storage })).1 ≡ true)
    × ((pos_cfg_init memory (record { active = defaults; storage = after_set.storage })).0.active
        ≡ record { anchor_h_cm = pos 300; tag_h_cm = pos 95 })
init-set_example =
    init-set memory at_boot (record { active = defaults; storage = after_set.storage }) (pos 300)
      (pos 95) memory-IsLawful refl set_here refl
