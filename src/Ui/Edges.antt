-- ===== src/Ui/Edges.antt =====
-- The button of src/tag_ui.c edge by edge: what its interrupt handler queues, and the deadlines of the
-- thread on the wrapping clock.
use tag_testting.Common.{
  ℕ, ◌+◌, ◌-◌, ◌^◌, ◌≤◌, ◌<◌, ◌≡◌, refl, Bool, true, false, some, List, [], ◌∷◌, ◌++◌, ltb, leb,
  if◌then◌else◌, length, u32, sub32, sub32-add, ◌-ℤ◌, All, arith, map, lt→ltb, le→leb,
}
use tag_testting.Ui.{
  BtnEv, Ui, Round, put, button_isr, edges, get, expired, double_ms, long_ms, debounce_ms, got_held,
  phase2,
}

-- A round whose clock is `c` ms after `t`, and the edges since the one before, also as times after `t`.
abbrev pub at : ℕ → ℕ → List (ℕ × Bool) → Round
at t c es = record { clock = u32 (t + c); since = map (λ (e : ℕ × Bool). (u32 (t + e.0), e.1)) es }

abbrev pub quiet : ℕ → ℕ → Round
quiet t c = at t c []

-- The queue is empty, and the last edge came long enough before `t`.
pub record IsReady (u : Ui) (t : ℕ) : Type 0 where
  pub empty : u.press_q ≡ []
  pub settled : debounce_ms ≤ sub32 (u32 (t + 0)) u.last_edge_ms

-- The deadline in the clock's own terms, also where it wraps.
pub expired_lem :
    (limit t c : ℕ)
    → t < 2 ^ 32
    → c < 2 ^ 31
    → limit < 2 ^ 31
    → expired limit (u32 (t + c)) t ≡ leb limit c
unfolding expired ◌-ℤ◌
expired_lem limit t c ht hc hl = rw (sub32-add t c ht (omega arith)) (ground arith)

-- The edges have come up to `c` ms after `t`, and the queue holds `q`.
abbrev pub seen_to : ℕ → ℕ → List BtnEv → Ui
seen_to t c q = record { last_edge_ms = u32 (t + c); press_q = q }

abbrev pub event : ℕ → ℕ → Bool → BtnEv
event t c level = record { t_ms = u32 (t + c); pressed = level }

since_lem :
    (t a b : ℕ) → t < 2 ^ 32 → a ≤ b → b < 2 ^ 31 → sub32 (u32 (t + b)) (u32 (t + a)) ≡ b - a
unfolding sub32
since_lem t a b ht h hb = omega arith

-- An edge that comes too soon after the one before is dropped, and another is queued.
pub edge_lem :
    (t a b : ℕ) (level : Bool) (q : List BtnEv)
    → t < 2 ^ 32
    → a ≤ b
    → b < 2 ^ 31
    → length q < 8
    → button_isr (seen_to t a q) (u32 (t + b), level)
      ≡ seen_to t b (if ltb (b - a) debounce_ms then q else q ++ event t b level ∷ [])
unfolding button_isr put
edge_lem t a b level q ht h hb room = rw (since_lem t a b ht h hb, lt→ltb _ _ room) (ground arith)

pub first_edge :
    (u : Ui) (t : ℕ)
    → IsReady u t
    → button_isr u (u32 (t + 0), true) ≡ seen_to t 0 (event t 0 true ∷ [])
unfolding button_isr put
first_edge u t r = rw (r.empty) (ground (arith, r.settled))

pub base_lem : (t : ℕ) → t < 2 ^ 32 → u32 (t + 0) ≡ t
base_lem t h = omega arith

le-false : (x : ℕ) → x < long_ms → leb long_ms x ≡ false
le-false x h = ground arith

pub before : (x : ℕ) → x < double_ms → leb double_ms x ≡ false
before x h = ground arith

pub late : (a d : ℕ) → a + debounce_ms ≤ d → ltb (d - a) debounce_ms ≡ false
late a d h = ground arith

module _ (t : ℕ) (word : t < 2 ^ 32) where
  -- While the button is held nothing comes, until the deadline has passed.
  pub phase2-quiet :
      (a c : ℕ) (cs : List ℕ) (rest : List Round)
      → All (λ x. x < long_ms) cs
      → long_ms ≤ c
      → c < 2 ^ 31
      → phase2 t (seen_to t a []) (map (quiet t) cs ++ quiet t c ∷ rest)
        ≡ some (true, seen_to t a [], rest)
  unfolding phase2 got_held edges get
  phase2-quiet a c [] rest h long hc =
      rw (expired_lem long_ms t c word hc (omega arith)) (rw (le→leb _ _ long) refl)
  phase2-quiet a c (x ∷ cs) rest h long hc =
      rw (expired_lem long_ms t x word (omega (arith, h.0)) (omega arith))
        (rw (le-false x (h.0)) (phase2-quiet a c cs rest h.1 long hc))

  -- A release that comes in time ends the hold.
  pub phase2_release :
      (a c d : ℕ) (cs : List ℕ) (rest : List Round)
      → All (λ x. x < long_ms) cs
      → c < long_ms
      → a + debounce_ms ≤ d
      → d < 2 ^ 31
      → phase2 t (seen_to t a []) (map (quiet t) cs ++ at t c ((d, false) ∷ []) ∷ rest)
        ≡ some (false, seen_to t d [], rest)
  unfolding phase2 got_held edges get
  phase2_release a c d [] rest h short hd hd' =
      rw (expired_lem long_ms t c word (omega (arith, short)) (omega arith)) (
        rw
          (
            le-false c short,
            edge_lem t a d false [] word (omega (arith, hd)) hd' (omega arith),
            late a d hd,
          )
          refl)
  phase2_release a c d (x ∷ cs) rest h short hd hd' =
      rw (expired_lem long_ms t x word (omega (arith, h.0)) (omega arith))
        (rw (le-false x (h.0)) (phase2_release a c d cs rest h.1 short hd hd'))
