-- ===== src/Ui/Gestures.antt =====
-- The gestures of src/tag_ui.c from the edges of the button: what the thread makes of a double press,
-- a short press, a press of medium length and a long one.
use tag_testting.Common.{
  ℕ, ◌+◌, ◌^◌, ◌≤◌, ◌<◌, ◌≡◌, refl, ◌∙◌, ap, true, false, some, List, [], ◌∷◌, ◌++◌, All, arith,
  map,
}
use tag_testting.Ui.{
  Ui, Round, edges, get, double_ms, long_ms, debounce_ms, held, got_first, phase1, got_after,
  consume_release, raised, cancelled, single_press, after_long, after_hold, after_window, got_idle,
  ui_fn,
}
use tag_testting.Ui.Edges.{
  at, quiet, IsReady, expired_lem, seen_to, edge_lem, first_edge, base_lem, before, late,
  phase2-quiet, phase2_release,
}
use tag_testting.Ui.{perform}
use tag_testting.Storage.{Nvs}
use tag_testting.Alert.Core.{raise, cancel}
use tag_testting.Alert.Persist.{TagAlert, tag_alert_raise, tag_alert_cancel, tag_alert_active}

module _ (t : ℕ) (word : t < 2 ^ 32) where
  module _ (u : Ui) (ready : IsReady u t) where
    pressed_lem :
        (c : ℕ) (rs : List Round)
        → ui_fn u (at t c ((0, true) ∷ []) ∷ rs)
          ≡ after_window t (phase1 t false (seen_to t 0 []) rs)
    unfolding ui_fn edges get got_idle
    pressed_lem c rs =
        rw (first_edge u t ready)
          (ap (λ x. after_window x (phase1 x false (seen_to t 0 []) rs)) (base_lem t word))

    held_lem :
        (c : ℕ) (rs : List Round)
        → phase1 t false (seen_to t 0 []) (quiet t c ∷ rs) ≡ some (held, seen_to t 0 [], rs)
    unfolding phase1 edges get got_first
    held_lem c rs = ground arith

    -- The edges and rounds of a long press.
    pub long_press_lem :
        (c0 c1 c d e : ℕ) (cs : List ℕ) (rest : List Round)
        → All (λ x. x < long_ms) cs
        → long_ms ≤ c
        → c < 2 ^ 31
        → debounce_ms ≤ e
        → e < 2 ^ 31
        → ui_fn u (
            at t c0 ((0, true) ∷ [])
            ∷ quiet t c1
            ∷ (map (quiet t) cs ++ quiet t c ∷ at t d ((e, false) ∷ []) ∷ rest))
          ≡ some (cancelled, seen_to t e [], rest)
    unfolding after_window after_hold consume_release edges get got_after after_long
    long_press_lem c0 c1 c d e cs rest h long hc he he' =
        pressed_lem c0 _
        ∙ ap (after_window t) (held_lem c1 _)
        ∙ ap after_hold (phase2-quiet t word 0 c cs (at t d ((e, false) ∷ []) ∷ rest) h long hc)
        ∙ rw (edge_lem t 0 e false [] word (omega arith) he' (omega arith), late 0 e he) refl

    -- The edges and rounds of a press of medium length.
    pub medium_press_lem :
        (c0 c1 c d : ℕ) (cs : List ℕ) (rest : List Round)
        → All (λ x. x < long_ms) cs
        → c < long_ms
        → debounce_ms ≤ d
        → d < 2 ^ 31
        → ui_fn u (
            at t c0 ((0, true) ∷ [])
            ∷ quiet t c1
            ∷ (map (quiet t) cs ++ at t c ((d, false) ∷ []) ∷ rest))
          ≡ single_press (seen_to t d []) rest
    unfolding after_window after_hold
    medium_press_lem c0 c1 c d cs rest h short hd hd' =
        pressed_lem c0 _
        ∙ ap (after_window t) (held_lem c1 _)
        ∙ ap after_hold (phase2_release t word 0 c d cs rest h short hd hd')

    -- The edges and rounds of a short press.
    pub short_press_lem :
        (c0 c1 c2 a : ℕ) (rest : List Round)
        → c1 < double_ms
        → debounce_ms ≤ a
        → a < 2 ^ 31
        → ui_fn u (at t c0 ((0, true) ∷ []) ∷ at t c1 ((a, false) ∷ []) ∷ quiet t c2 ∷ rest)
          ≡ single_press (seen_to t a []) rest
    unfolding after_window phase1 edges get got_first
    short_press_lem c0 c1 c2 a rest h ha ha' =
        pressed_lem c0 _
        ∙ rw (expired_lem double_ms t c1 word (omega (arith, h)) (omega arith)) (
            rw
              (
                before c1 h,
                edge_lem t 0 a false [] word (omega arith) ha' (omega arith),
                late 0 a ha,
              )
              (ground arith))

    -- The edges and rounds of a double press.
    pub double_press_lem :
        (c0 c1 c2 a b : ℕ) (rest : List Round)
        → c1 < double_ms
        → c2 < double_ms
        → debounce_ms ≤ a
        → a + debounce_ms ≤ b
        → b < 2 ^ 31
        → ui_fn u
            (at t c0 ((0, true) ∷ []) ∷ at t c1 ((a, false) ∷ []) ∷ at t c2 ((b, true) ∷ []) ∷ rest)
          ≡ some (raised, seen_to t b [], rest)
    unfolding after_window phase1 edges get got_first
    double_press_lem c0 c1 c2 a b rest h h2 ha hb hb' =
        pressed_lem c0 _
        ∙ rw
            (
              expired_lem double_ms t c1 word (omega (arith, h)) (omega arith),
              expired_lem double_ms t c2 word (omega (arith, h2)) (omega arith),
            )
            (rw
              (
                before c1 h,
                edge_lem t 0 a false [] word (omega arith) (omega (arith, ha, hb)) (omega arith),
                late 0 a ha,
              )
              (rw
                (
                  before c2 h2,
                  edge_lem t a b true [] word (omega (arith, hb)) hb' (omega arith),
                  late a b hb,
                )
                refl))

raise_active :
    (N : Nvs) (alert : TagAlert N) (now : ℕ)
    → tag_alert_active N (perform N alert raised now) ≡ true
unfolding perform tag_alert_active tag_alert_raise raise
raise_active N alert now = ground arith

cancel_inactive :
    (N : Nvs) (alert : TagAlert N) (now : ℕ)
    → tag_alert_active N (perform N alert cancelled now) ≡ false
unfolding perform tag_alert_active tag_alert_cancel cancel
cancel_inactive N alert now = ground arith

-- The rounds of a double press.
abbrev pub double_rounds : ℕ → ℕ → ℕ → ℕ → ℕ → ℕ → List Round → List Round
double_rounds t c0 c1 c2 a b rest =
    at t c0 ((0, true) ∷ []) ∷ at t c1 ((a, false) ∷ []) ∷ at t c2 ((b, true) ∷ []) ∷ rest

-- A double press raises HELP, also where the clock wraps: from an empty queue and no edge in the last
-- 30 ms, two presses and the release between them, each edge 30 ms or more after the one before,
-- of which the thread takes up the last two within 350 ms of the first; the alert is then active.
pub double_press_raises :
    (N : Nvs) (alert : TagAlert N) (u : Ui) (t c0 c1 c2 a b now : ℕ) (rest : List Round)
    → t < 2 ^ 32
    → IsReady u t
    → c1 < double_ms
    → c2 < double_ms
    → debounce_ms ≤ a
    → a + debounce_ms ≤ b
    → b < 2 ^ 31
    → (ui_fn u (double_rounds t c0 c1 c2 a b rest) ≡ some (raised, seen_to t b [], rest))
      × (tag_alert_active N (perform N alert raised now) ≡ true)
double_press_raises N alert u t c0 c1 c2 a b now rest word ready h1 h2 ha hb hb' =
    (double_press_lem t word u ready c0 c1 c2 a b rest h1 h2 ha hb hb', raise_active N alert now)

-- The rounds of a press held over the clock readings `cs` and to the reading `c`, and its release.
abbrev pub long_rounds : ℕ → ℕ → ℕ → List ℕ → ℕ → ℕ → ℕ → List Round → List Round
long_rounds t c0 c1 cs c d e rest =
    at t c0 ((0, true) ∷ [])
    ∷ quiet t c1
    ∷ (map (quiet t) cs ++ quiet t c ∷ at t d ((e, false) ∷ []) ∷ rest)

-- A press that is held cancels at the first clock reading 3 s or more after it, also where the clock
-- wraps: from an empty queue and no edge in the last 30 ms; the alert is then not active, and the
-- release that follows is taken out of the queue.
pub long_press_cancels :
    (N : Nvs) (alert : TagAlert N) (u : Ui) (t c0 c1 c d e now : ℕ) (cs : List ℕ)
    (rest : List Round)
    → t < 2 ^ 32
    → IsReady u t
    → All (λ x. x < long_ms) cs
    → long_ms ≤ c
    → c < 2 ^ 31
    → debounce_ms ≤ e
    → e < 2 ^ 31
    → (ui_fn u (long_rounds t c0 c1 cs c d e rest) ≡ some (cancelled, seen_to t e [], rest))
      × (tag_alert_active N (perform N alert cancelled now) ≡ false)
long_press_cancels N alert u t c0 c1 c d e now cs rest word ready h long hc he he' = (
  long_press_lem t word u ready c0 c1 c d e cs rest h long hc he he',
  cancel_inactive N alert now,
)
