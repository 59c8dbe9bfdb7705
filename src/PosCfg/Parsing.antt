-- ===== src/PosCfg/Parsing.antt =====
-- The command `pos z` of src/pos_cfg.c from its characters to the heights.
use tag_testting.Common.{
  ℕ, zero, suc, ◌+◌, ◌-◌, ◌*◌, ◌≤◌, ◌≡◌, refl, ◌∙◌, ap, Bool, true, false, not, ◌&&◌, none, some,
  List, [], ◌∷◌, ◌++◌, ltb, leb, if◌then◌else◌, replicate, All, Bool-cases, arith, inl, inr,
}
use tag_testting.PosCfg.Command.{
  is_digit, skip_spaces, cm_digits, after_digits, parse_cm, first_height, second_height,
  parse_heights,
}

-- The number that digits stand for, after the value `v`.
unfoldable pub number : ℕ → List ℕ → ℕ
number v [] = v
number v (b ∷ bs) = number (v * 10 + (b - 48)) bs

-- A string that does not go on with a digit.
abbrev pub ends_number : List ℕ → Bool
ends_number [] = true
ends_number (b ∷ bs) = not (is_digit b)

abbrev pub Digits : List ℕ → Type 0
Digits = All (λ b. is_digit b ≡ true)

number_mono : (v : ℕ) (ds : List ℕ) → v ≤ number v ds
unfolding number
number_mono v [] = omega arith
number_mono v (b ∷ bs) = omega (arith, number_mono (v * 10 + (b - 48)) bs)

abbrev seen : Bool → List ℕ → Bool
seen any [] = any
seen any (b ∷ bs) = true

seen_true : (bs : List ℕ) → seen true bs ≡ true
seen_true [] = refl
seen_true (b ∷ bs) = refl

-- The loop reads all the digits, or stops at the cap.
cm_digits_lem :
    (ds rest : List ℕ) (v : ℕ) (any : Bool)
    → Digits ds
    → ends_number rest ≡ true
    → v ≤ 100000
    → cm_digits v any (ds ++ rest)
      ≡ (if leb (number v ds) 100000 then some (number v ds, seen any ds, rest) else none)
unfolding cm_digits number
cm_digits_lem [] [] v any h e k = ground arith
cm_digits_lem [] (b ∷ bs) v any h e k = ground arith
cm_digits_lem (b ∷ bs) rest v any h e k = elim (Bool-cases (ltb 100000 (v * 10 + (b - 48)))) [
  | inl over ↦
      let big : leb (number (v * 10 + (b - 48)) bs) 100000 ≡ false =
        ground (arith, over, number_mono (v * 10 + (b - 48)) bs) in
      rw (h.0, over, big) refl
  | inr room ↦
      rw (h.0, room)
        (cm_digits_lem bs rest (v * 10 + (b - 48)) true h.1 e (ground (arith, room))
          ∙ rw (seen_true bs) refl)
]

pub skip_all : (k : ℕ) (s : List ℕ) → skip_spaces (replicate k 32 ++ s) ≡ skip_spaces s
unfolding skip_spaces
skip_all zero s = refl
skip_all (suc k) s = skip_all k s

pub no_space : (d : ℕ) (s : List ℕ) → is_digit d ≡ true → skip_spaces (d ∷ s) ≡ d ∷ s
unfolding skip_spaces
no_space d s h = ground arith

-- Spaces, digits and spaces give their number, unless it is over the cap.
parse_cm_lem :
    (j k d : ℕ) (ds rest : List ℕ)
    → Digits (d ∷ ds)
    → ends_number (replicate k 32 ++ rest) ≡ true
    → parse_cm (replicate j 32 ++ (d ∷ ds ++ (replicate k 32 ++ rest))) ≡ (
        if leb (number 0 (d ∷ ds)) 100000 then some (number 0 (d ∷ ds), skip_spaces rest) else none)
unfolding parse_cm after_digits
parse_cm_lem j k d ds rest h e =
    rw
      (
        skip_all j (d ∷ (ds ++ (replicate k 32 ++ rest))),
        no_space d (ds ++ (replicate k 32 ++ rest)) h.0,
        cm_digits_lem (d ∷ ds) (replicate k 32 ++ rest) 0 false h e (omega arith),
      )
      (elim (Bool-cases (leb (number 0 (d ∷ ds)) 100000)) [
        | inl small ↦ rw (small, skip_all k rest) refl
        | inr big ↦ rw big refl
      ])

ends_blank : (n : ℕ) → ends_number (replicate n 32 ++ []) ≡ true
ends_blank zero = refl
ends_blank (suc n) = refl

-- Both numbers, with spaces before, between and after them.
pub parse_heights_lem :
    (j k n d e : ℕ) (ds es : List ℕ)
    → Digits (d ∷ ds)
    → Digits (e ∷ es)
    → parse_heights
        (replicate j 32 ++ (d ∷ ds ++ (replicate (suc k) 32 ++ (e ∷ es ++ (replicate n 32 ++ [])))))
      ≡ (if leb (number 0 (d ∷ ds)) 100000 && leb (number 0 (e ∷ es)) 100000
          then some (number 0 (d ∷ ds), number 0 (e ∷ es))
          else none)
unfolding parse_heights first_height second_height skip_spaces
parse_heights_lem j k n d e ds es h g =
    let tail = e ∷ es ++ (replicate n 32 ++ []) in
    let a = number 0 (d ∷ ds) in
    let t = number 0 (e ∷ es) in
    let blanks : skip_spaces (replicate n 32 ++ []) ≡ [] = skip_all n [] in
    rw (parse_cm_lem j (suc k) d ds tail h refl) (elim (Bool-cases (leb a 100000)) [
      | inr big ↦ rw big refl
      | inl small ↦ rw small (
          ap (second_height a) (
            ap parse_cm (no_space e (es ++ (replicate n 32 ++ [])) g.0)
            ∙ parse_cm_lem zero n e es [] g (ends_blank n))
          ∙ elim (Bool-cases (leb t 100000)) [ inl low ↦ rw low refl | inr high ↦ rw high refl ])
    ])
