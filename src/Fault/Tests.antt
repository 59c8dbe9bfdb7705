-- ===== src/Fault/Tests.antt =====
-- The record of src/wdt.c after one fatal error.
use tag_testting.Common.{◌≡◌, refl, none, some, [], ◌∷◌, replicate}
use tag_testting.Fault.{
  FaultRec, fault_magic, tag_fault_get, tag_fault_clear, store_all, fatal_stores,
}
use tag_testting.Fault.Retained.{reported, fault_reported}

-- RAM after a cold boot, and with an older report.
abbrev cold : FaultRec
cold = record { magic = 1; reason = 7; pc = 7; lr = 7; bfar = 7; thread = replicate 16 7 }

abbrev old_report : FaultRec
old_report = record cold { magic = fault_magic }

fault_reported_example :
    ((tag_fault_get (store_all cold (fatal_stores 3 (some (100, 200)) 5 (some (114 ∷ 117 ∷ []))))).1
      ≡ some (reported 3 (some (100, 200)) 5 (some (114 ∷ 117 ∷ []))))
    × ((tag_fault_get (
          tag_fault_clear
            (store_all cold (fatal_stores 3 (some (100, 200)) 5 (some (114 ∷ 117 ∷ [])))))).1
        ≡ none)
fault_reported_example = fault_reported cold 3 5 (some (100, 200)) (some (114 ∷ 117 ∷ [])) refl
