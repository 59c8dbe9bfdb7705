-- ===== src/Ui/Missed.antt =====
-- Two ways in which src/tag_ui.c takes a short tap for a long press, since it never sees the release:
-- the debounce drops it, or the press goes back into the queue behind it.
use tag_testting.Common.{
  ℕ, ◌+◌, ◌-◌, ◌^◌, ◌≤◌, ◌<◌, ◌≡◌, refl, ◌∙◌, ap, true, false, some, List, [], ◌∷◌, ◌++◌, ltb, u32,
  sub32, signed32, pos, leb_ℤ, All, arith, map,
}
use tag_testting.Ui.{
  Ui, Round, put, edges, get, long_ms, debounce_ms, got_first, phase1, got_after, consume_release,
  got_shown, display, idle, cancelled, requeue, after_long, after_hold, after_window, got_idle,
  ui_fn,
}
use tag_testting.Ui.Edges.{
  at, quiet, IsReady, seen_to, event, edge_lem, first_edge, base_lem, late, phase2-quiet,
}

-- The rounds of a wait of 3 s in which no edge comes.
abbrev pub silence : ℕ → ℕ → List ℕ → ℕ → ℕ → List Round → List Round
silence t c1 cs c d rest = quiet t c1 ∷ (map (quiet t) cs ++ quiet t c ∷ quiet t d ∷ rest)

module _ (t : ℕ) (word : t < 2 ^ 32) where
  -- A press that is followed by nothing.
  unreleased :
      (a c1 c d : ℕ) (cs : List ℕ) (rest : List Round)
      → All (λ x. x < long_ms) cs
      → long_ms ≤ c
      → c < 2 ^ 31
      → after_window t (phase1 t false (seen_to t a []) (silence t c1 cs c d rest))
        ≡ some (cancelled, seen_to t a [], rest)
  unfolding after_window phase1 edges get got_first after_hold consume_release got_after after_long
  unreleased a c1 c d cs rest h long hc =
      ground (arith, phase2-quiet t word a c cs (quiet t d ∷ rest) h long hc)

  -- The press alone is in the queue.
  pub lone_press :
      (a c0 c1 c d : ℕ) (cs : List ℕ) (rest : List Round)
      → All (λ x. x < long_ms) cs
      → long_ms ≤ c
      → c < 2 ^ 31
      → ui_fn (seen_to t a (event t 0 true ∷ [])) (quiet t c0 ∷ silence t c1 cs c d rest)
        ≡ some (cancelled, seen_to t a [], rest)
  unfolding ui_fn edges get got_idle
  lone_press a c0 c1 c d cs rest h long hc =
      ap (λ x. after_window x (phase1 x false (seen_to t a []) (silence t c1 cs c d rest)))
        (base_lem t word)
      ∙ unreleased a c1 c d cs rest h long hc

dropped : (a : ℕ) → a < debounce_ms → ltb (a - 0) debounce_ms ≡ true
dropped a h = ground arith

-- The display takes the press and leaves the release.
taken :
    (u : Ui) (t a deadline c0 : ℕ) (more : List Round)
    → t < 2 ^ 32
    → IsReady u t
    → debounce_ms ≤ a
    → a < 2 ^ 31
    → leb_ℤ (signed32 (sub32 deadline (u32 (t + c0)))) (pos 0) ≡ false
    → display deadline u (at t c0 ((0, true) ∷ (a, false) ∷ []) ∷ more)
      ≡ some (some (event t 0 true), seen_to t a (event t a false ∷ []), more)
unfolding display edges get got_shown
taken u t a deadline c0 more word ready ha ha' early =
    rw
      (
        early,
        first_edge u t ready,
        edge_lem t 0 a false (event t 0 true ∷ []) word (omega arith) ha' (omega arith),
        late 0 a ha,
      )
      refl

-- A release that is the oldest event is no gesture.
discarded :
    (t a c1 : ℕ) (later : List Round)
    → ui_fn (seen_to t a (event t a false ∷ event t 0 true ∷ [])) (quiet t c1 ∷ later)
      ≡ some (idle, seen_to t a (event t 0 true ∷ []), later)
unfolding ui_fn edges get got_idle
discarded t a c1 later = refl

-- A tap of less than 30 ms cancels the alert: its release is dropped as a bounce, and the button
-- counts as held until the thread reads a clock 3 s or more after the press, though it was released.
pub bounced_release_cancels :
    (u : Ui) (t a c0 c1 c d : ℕ) (cs : List ℕ) (rest : List Round)
    → t < 2 ^ 32
    → IsReady u t
    → a < debounce_ms
    → All (λ x. x < long_ms) cs
    → long_ms ≤ c
    → c < 2 ^ 31
    → ui_fn u (at t c0 ((0, true) ∷ (a, false) ∷ []) ∷ silence t c1 cs c d rest)
      ≡ some (cancelled, seen_to t a [], rest)
unfolding ui_fn edges
bounced_release_cancels u t a c0 c1 c d cs rest word ready short h long hc =
    rw
      (
        first_edge u t ready,
        edge_lem t 0 a false (event t 0 true ∷ []) word (omega arith) (omega (arith, short))
            (omega arith),
        dropped a short,
      )
      (lone_press t word a c0 c1 c d cs rest h long hc)

-- A tap that is queued whole during the battery display cancels the alert, if the thread takes up the
-- press before the deadline: the display ends with the press, which goes back into the queue behind its
-- own release; the next turn discards the release, and the turn after it waits 3 s for one and
-- cancels.
pub requeued_tap_cancels :
    (u : Ui) (t a deadline c0 c1 c2 c3 c d : ℕ) (cs : List ℕ) (more later rest : List Round)
    → t < 2 ^ 32
    → IsReady u t
    → debounce_ms ≤ a
    → a < 2 ^ 31
    → leb_ℤ (signed32 (sub32 deadline (u32 (t + c0)))) (pos 0) ≡ false
    → All (λ x. x < long_ms) cs
    → long_ms ≤ c
    → c < 2 ^ 31
    → (display deadline u (at t c0 ((0, true) ∷ (a, false) ∷ []) ∷ more)
        ≡ some (some (event t 0 true), seen_to t a (event t a false ∷ []), more))
      × (ui_fn
            (requeue (some (event t 0 true)) (seen_to t a (event t a false ∷ [])))
            (quiet t c1 ∷ later)
          ≡ some (idle, seen_to t a (event t 0 true ∷ []), later))
      × (ui_fn (seen_to t a (event t 0 true ∷ [])) (quiet t c2 ∷ silence t c3 cs c d rest)
          ≡ some (cancelled, seen_to t a [], rest))
unfolding requeue put
requeued_tap_cancels u t a deadline c0 c1 c2 c3 c d cs more later rest word ready ha ha' early h
      long hc =
    (
      taken u t a deadline c0 more word ready ha ha' early,
      discarded t a c1 later,
      lone_press t word a c2 c3 c d cs rest h long hc,
    )
