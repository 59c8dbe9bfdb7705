-- ===== src/Command/Cases.antt =====
-- The cases of a command (`tag_cmd_on_rx` of src/tag_cmd.c), seen from the alert.
use tag_testting.Common.{
  ℕ, ◌≡◌, refl, Bool, true, false, List, [], ◌∷◌, if◌then◌else◌, bytes_eq, All,
}
use tag_testting.Storage.{Nvs}
use tag_testting.Alert.Persist.{tag_alert_raise, tag_alert_cancel}
use tag_testting.Command.{codes}
use tag_testting.Command.Handler.{
  Tag, Answer, Reports, on_fault, on_pos, on_dbg, on_pwr, first_case, pwr_cases, cases_of,
  cal_cases, forward_cal, dispatch,
}

module _ (N : Nvs) where
  choose :
      (Q : Answer N → Type 0) (b : Bool) {x y : Answer N}
      → (b ≡ true → Q x)
      → Q y
      → Q (if b then x else y)
  choose Q true h k = h refl
  choose Q false h k = k

  first_case_all :
      (Q : Answer N → Type 0) (cases : List (Bool × Answer N)) (last : Answer N)
      → Q last
      → All (λ (c : Bool × Answer N). c.0 ≡ true → Q c.1) cases
      → Q (first_case N cases last)
  unfolding first_case
  first_case_all Q [] last h k = h
  first_case_all Q ((test, a) ∷ cases) last h k =
      choose Q test k.0 (first_case_all Q cases last h k.1)

  -- A property that every answer has which leaves the alert as it is in `s`.
  module _ (Q : Answer N → Type 0) (s : Tag N)
      (same : (a : Answer N) → a.0.alert ≡ s.alert → Q a) where
    fault_leaves : (b : Bool) → Q (on_fault N s b)
    unfolding on_fault
    fault_leaves b = choose Q b (λ _. same _ refl) (same _ refl)

    power_leaves : (r : Reports) (now : ℕ) (buf : List ℕ) → Q (on_pwr N s r now buf)
    unfolding on_pwr pwr_cases
    power_leaves r now buf = first_case_all Q (pwr_cases N s r now buf) _ (same _ refl) (
      λ _. same _ refl,
      (
        λ _. same _ refl,
        (
          λ _. same _ refl,
          (
            λ _. same _ refl,
            (
              λ _. same _ refl,
              (
                λ _. same _ refl,
                (
                  λ _. same _ refl,
                  (
                    λ _. same _ refl,
                    (
                      λ _. same _ refl,
                      (λ _. same _ refl, (λ _. same _ refl, (λ _. same _ refl, tt))),
                    ),
                  ),
                ),
              ),
            ),
          ),
        ),
      ),
    )

    cal_leaves : (cal_mode : Bool) (buf raw : List ℕ) → Q (forward_cal N cal_mode s buf raw)
    unfolding forward_cal cal_cases
    cal_leaves false buf raw = same _ refl
    cal_leaves true buf raw =
        first_case_all Q (cal_cases N s buf raw) _ (same _ refl)
          (λ _. same _ refl, (λ _. same _ refl, tt))

    dbg_leaves : (buf : List ℕ) → Q (on_dbg N s buf)
    unfolding on_dbg
    dbg_leaves buf = same _ refl

    -- It holds of every answer to a command, if it holds of those that raise, cancel and place.
    pub dispatch_cases :
        (cal_mode : Bool) (r : Reports) (now : ℕ) (buf raw : List ℕ)
        → (bytes_eq buf (codes "help on") ≡ true
            → (a : Answer N) → a.0.alert ≡ tag_alert_raise N s.alert now
            → Q a)
        → (bytes_eq buf (codes "help off") ≡ true
            → (a : Answer N) → a.0.alert ≡ tag_alert_cancel N s.alert now
            → Q a)
        → Q (on_pos N s buf)
        → Q (dispatch N cal_mode s r now buf raw)
    unfolding dispatch cases_of
    dispatch_cases cal_mode r now buf raw up down placed =
        first_case_all Q (cases_of N s r now buf) (forward_cal N cal_mode s buf raw)
          (cal_leaves cal_mode buf raw)
          (
            λ _. same _ refl,
            (
              λ _. fault_leaves _,
              (
                λ _. same _ refl,
                (
                  λ calls. up calls _ refl,
                  (
                    λ stops. down stops _ refl,
                    (
                      λ _. same _ refl,
                      (λ _. placed, (λ _. dbg_leaves buf, (λ _. power_leaves r now buf, tt))),
                    ),
                  ),
                ),
              ),
            ),
          )
