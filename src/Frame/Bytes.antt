-- ===== src/Frame/Bytes.antt =====
-- Byte buffers and the little-endian field helpers of src/uwb_frame_802_15_4z.c.
use tag_testting.Common.{
  ℕ, zero, suc, ◌+◌, ◌*◌, ◌/◌, ◌^◌, ◌≤◌, ◌<◌, ◌≡◌, refl, ap, sym, List, [], ◌∷◌, bit_or,
  bit_or-shifted, arith, u8, u16, get_or, set, length, drop,
}
use mathlib.Core.Path.{subst}

-- The byte at an index; a read past the end is not defined in C and gives 0 here.
abbrev pub byte : List ℕ → ℕ → ℕ
byte buf i = get_or buf i 0

-- `put_u16`
unfoldable pub put_u16 : List ℕ → ℕ → ℕ → List ℕ
put_u16 buf o v = set (set buf o (u8 v)) (o + 1) (u8 (v / 2 ^ 8))

-- `put_u32`, and `put_f32` of a float's bits
unfoldable pub put_u32 : List ℕ → ℕ → ℕ → List ℕ
put_u32 buf o v =
    set (set (set (set buf o (u8 v)) (o + 1) (u8 (v / 2 ^ 8))) (o + 2) (u8 (v / 2 ^ 16))) (o + 3)
      (u8 (v / 2 ^ 24))

-- `get_u16`
unfoldable pub get_u16 : List ℕ → ℕ → ℕ
get_u16 buf o = u16 (bit_or (byte buf o) (byte buf (o + 1) * 2 ^ 8))

-- `get_u32`, and `get_f32` as the float's bits
unfoldable pub get_u32 : List ℕ → ℕ → ℕ
get_u32 buf o =
    bit_or (bit_or (bit_or (byte buf o) (byte buf (o + 1) * 2 ^ 8)) (byte buf (o + 2) * 2 ^ 16))
      (byte buf (o + 3) * 2 ^ 24)

-- `memcpy(&buf[o + i], &src[i], n)`
unfoldable pub put_bytes : ℕ → ℕ → List ℕ → ℕ → List ℕ → List ℕ
put_bytes zero i buf o src = buf
put_bytes (suc n) i buf o src = put_bytes n (i + 1) (set buf (o + i) (byte src i)) o src

-- The `n` bytes from index `o` on, as `memcpy` reads them.
unfoldable pub get_bytes : ℕ → List ℕ → ℕ → List ℕ
get_bytes zero buf o = []
get_bytes (suc n) buf o = byte buf o ∷ get_bytes n buf (o + 1)

-- The two bytes of a 16-bit word join to it again.
pub join16 : (v : ℕ) → v < 2 ^ 16 → u16 (bit_or (u8 v) (u8 (v / 2 ^ 8) * 2 ^ 8)) ≡ v
join16 v h = rw (bit_or-shifted 8 (u8 (v / 2 ^ 8)) (u8 v) (omega arith)) (omega arith)

-- The four bytes of a 32-bit word join to it again.
pub join32 :
    (v : ℕ)
    → v < 2 ^ 32
    → bit_or
        (bit_or (bit_or (u8 v) (u8 (v / 2 ^ 8) * 2 ^ 8)) (u8 (v / 2 ^ 16) * 2 ^ 16))
        (u8 (v / 2 ^ 24) * 2 ^ 24)
      ≡ v
join32 v h =
    rw
      (
        bit_or-shifted 8 (u8 (v / 2 ^ 8)) (u8 v) (omega arith),
        bit_or-shifted 16 (u8 (v / 2 ^ 16)) (u8 v + u8 (v / 2 ^ 8) * 2 ^ 8) (omega arith),
        bit_or-shifted 24 (u8 (v / 2 ^ 24))
            (u8 v + u8 (v / 2 ^ 8) * 2 ^ 8 + u8 (v / 2 ^ 16) * 2 ^ 16) (omega arith),
      )
      (omega arith)

-- `n` bytes, each written out, before a rest.
abbrev pub cells : ℕ → (ℕ → ℕ) → List ℕ → List ℕ
cells zero f rest = rest
cells (suc n) f rest = f 0 ∷ cells n (λ i. f (suc i)) rest

-- A buffer of at least `n` bytes is its first `n` bytes and a rest.
pub cells-split : (n : ℕ) (xs : List ℕ) → n ≤ length xs → xs ≡ cells n (byte xs) (drop n xs)
cells-split zero xs h = refl
cells-split (suc n) [] h = absurd (omega arith)
cells-split (suc n) (x ∷ xs) h = ap (λ ys. x ∷ ys) (cells-split n xs (omega arith))

pub cells_all : (n : ℕ) (xs : List ℕ) → length xs ≡ n → cells n (byte xs) [] ≡ xs
cells_all zero [] h = refl
cells_all zero (x ∷ xs) h = absurd (omega arith)
cells_all (suc n) [] h = absurd (omega arith)
cells_all (suc n) (x ∷ xs) h = ap (λ ys. x ∷ ys) (cells_all n xs (omega arith))

-- What holds of every buffer of `n` bytes written out and a rest holds of a buffer of `n` bytes.
pub on_cells :
    (n : ℕ) (buf : List ℕ) (P : List ℕ → List ℕ → Type 0)
    → n ≤ length buf
    → ((f : ℕ → ℕ) (rest : List ℕ) → P (cells n f rest) rest)
    → P buf (drop n buf)
on_cells n buf P h k =
    subst (λ b. P b (drop n buf)) (sym (cells-split n buf h)) (k (byte buf) (drop n buf))
