-- ===== src/Frame/BeaconTrips.antt =====
-- The round trip of the BEACON frame, and the search for the tag's slot.
use tag_testting.Common.{
  ℕ, zero, suc, ◌+◌, ◌-◌, ◌*◌, ◌/◌, ◌%◌, ◌^◌, ◌<◌, ◌≤◌, ◌≡◌, ◌≢◌, ◌⊎◌, inl, inr, ℕ_discrete, refl,
  ap, ap₂, ◌∙◌, List, [], ◌∷◌, All, none, some, length, arith, get_or, set, get_or-set_ne,
  get_or-set_self, length-set, u16, u8, bit_or,
}
use native.Mathlib.Numerals.{add-one}
use tag_testting.Frame.Bytes.{
  byte, put_u16, put_u32, get_u16, get_u32, join16, join32, cells, on_cells,
}
use tag_testting.Frame.Header.{
  einval, emsgsize, ok, err, addr_bcast, addr_gateway, type_beacon, hdr_bytes, get_src_addr,
  get_dest_addr,
}
use tag_testting.Frame.Beacon.{
  proto_ver_frame, put_map, beacon_build, get_map, parse_beacon, find_from, beacon_find_addr,
}

length-put_u16 : (buf : List ℕ) (o v : ℕ) → length (put_u16 buf o v) ≡ length buf
unfolding put_u16
length-put_u16 buf o v =
    length-set (set buf o (u8 v)) (o + 1) (u8 (v / 2 ^ 8)) ∙ length-set buf o (u8 v)

byte-put_u16 : (buf : List ℕ) (o v j : ℕ) → j < o → byte (put_u16 buf o v) j ≡ byte buf j
unfolding put_u16
byte-put_u16 buf o v j h =
    get_or-set_ne (set buf o (u8 v)) (u8 (v / 2 ^ 8)) 0 (omega arith)
    ∙ get_or-set_ne buf (u8 v) 0 (omega arith)

get_u16-put_u16 :
    (buf : List ℕ) (o v : ℕ) → o + 1 < length buf → v < 2 ^ 16 → get_u16 (put_u16 buf o v) o ≡ v
unfolding get_u16 put_u16
get_u16-put_u16 buf o v h w =
    rw
      (
        get_or-set_ne (set buf o (u8 v)) {i = o + 1} {j = o} (u8 (v / 2 ^ 8)) 0 (omega arith),
        get_or-set_self buf o (u8 v) 0 (omega arith),
        get_or-set_self (set buf o (u8 v)) (o + 1) (u8 (v / 2 ^ 8)) 0
            (omega (arith, length-set buf o (u8 v))),
      )
      (join16 v w)

-- The loop leaves what is before its first entry.
byte-put_map :
    (n i : ℕ) (buf m : List ℕ) (j : ℕ) → j < 15 + 2 * i → byte (put_map n i buf m) j ≡ byte buf j
unfolding put_map
byte-put_map zero i buf m j h = refl
byte-put_map (suc n) i buf m j h =
    byte-put_map n (i + 1) (put_u16 buf (15 + 2 * i) (get_or m i 0)) m j (omega arith)
    ∙ byte-put_u16 buf (15 + 2 * i) (get_or m i 0) j h

-- The entries from index `i` on.
entries : ℕ → ℕ → List ℕ → List ℕ
entries zero i m = []
entries (suc n) i m = get_or m i 0 ∷ entries n (i + 1) m

entries-shift : (n i x : ℕ) (m : List ℕ) → entries n (i + 1) (x ∷ m) ≡ entries n i m
unfolding entries
entries-shift zero i x m = refl
entries-shift (suc n) i x m =
    ap₂ ◌∷◌ (ap (λ (k : ℕ). get_or (x ∷ m) k 0) (add-one i)) (entries-shift n (i + 1) x m)

entries_all : (m : List ℕ) → entries (length m) 0 m ≡ m
unfolding entries
entries_all [] = refl
entries_all (x ∷ m) = ap (λ ys. x ∷ ys) (entries-shift (length m) 0 x m ∙ entries_all m)

get_u16_cong :
    (a b : List ℕ) (o : ℕ)
    → byte a o ≡ byte b o
    → byte a (o + 1) ≡ byte b (o + 1)
    → get_u16 a o ≡ get_u16 b o
unfolding get_u16
get_u16_cong a b o p q = ap₂ (λ (x y : ℕ). u16 (bit_or x (y * 2 ^ 8))) p q

get_map-put_map :
    (n i : ℕ) (buf m : List ℕ)
    → 15 + 2 * (i + n) ≤ length buf
    → ((k : ℕ) → get_or m k 0 < 2 ^ 16)
    → get_map n i (put_map n i buf m) ≡ entries n i m
unfolding get_map put_map entries
get_map-put_map zero i buf m h w = refl
get_map-put_map (suc n) i buf m h w =
    let buf' = put_u16 buf (15 + 2 * i) (get_or m i 0) in
    ap₂ ◌∷◌
      (get_u16_cong (put_map n (i + 1) buf' m) buf' (15 + 2 * i)
          (byte-put_map n (i + 1) buf' m (15 + 2 * i) (omega arith))
          (byte-put_map n (i + 1) buf' m (15 + 2 * i + 1) (omega arith))
        ∙ get_u16-put_u16 buf (15 + 2 * i) (get_or m i 0) (omega arith) (w i))
      (get_map-put_map n (i + 1) buf' m
        (omega (arith, length-put_u16 buf (15 + 2 * i) (get_or m i 0))) w)

word_at : (m : List ℕ) (k : ℕ) → All (λ v. v < 2 ^ 16) m → get_or m k 0 < 2 ^ 16
word_at [] k h = omega arith
word_at (x ∷ m) zero h = h.0
word_at (x ∷ m) (suc k) h = word_at m k h.1

-- The buffer before the loop.
base : List ℕ → ℕ → List ℕ
base b fc = put_u32 (set (hdr_bytes b addr_bcast addr_gateway type_beacon) 10 proto_ver_frame) 11 fc

-- What `base` holds in its first 15 bytes.
record IsBase (fc : ℕ) (b : List ℕ) : Type 0 where
  fc0 : byte b 0 ≡ 0x41
  fc1 : byte b 1 ≡ 0x88
  pan0 : byte b 3 ≡ 0xca
  pan1 : byte b 4 ≡ 0xde
  ty : byte b 9 ≡ type_beacon
  ver : byte b 10 ≡ proto_ver_frame
  counter : get_u32 b 11 ≡ fc
  dest : get_dest_addr b ≡ addr_bcast
  src : get_src_addr b ≡ addr_gateway

base-IsBase :
    (fc : ℕ) (f : ℕ → ℕ) (rest : List ℕ) → fc < 2 ^ 32 → IsBase fc (base (cells 15 f rest) fc)
unfolding base put_u32 put_u16 get_u32 get_u16 get_dest_addr get_src_addr
base-IsBase fc f rest h = record {
  fc0 = refl;
  fc1 = refl;
  pan0 = refl;
  pan1 = refl;
  ty = refl;
  ver = refl;
  counter = join32 fc h;
  dest = refl;
  src = refl;
}

-- The loop keeps those bytes.
put_map-IsBase : (fc n : ℕ) (b m : List ℕ) → IsBase fc b → IsBase fc (put_map n 0 b m)
unfolding get_u32 get_u16 get_dest_addr get_src_addr
put_map-IsBase fc n b m h =
    let same : (j : ℕ) → j < 15 → byte (put_map n 0 b m) j ≡ byte b j =
      λ j lt. byte-put_map n 0 b m j (omega arith) in
    let at : (o : ℕ) → o < 14 → get_u16 (put_map n 0 b m) o ≡ get_u16 b o = λ o lt.
      get_u16_cong (put_map n 0 b m) b o (same o (omega arith)) (same (o + 1) (omega arith)) in
    record {
      fc0 = same 0 (omega arith) ∙ h.fc0;
      fc1 = same 1 (omega arith) ∙ h.fc1;
      pan0 = same 3 (omega arith) ∙ h.pan0;
      pan1 = same 4 (omega arith) ∙ h.pan1;
      ty = same 9 (omega arith) ∙ h.ty;
      ver = same 10 (omega arith) ∙ h.ver;
      counter =
          rw
            (
              same 11 (omega arith),
              same 12 (omega arith),
              same 13 (omega arith),
              same 14 (omega arith),
            )
            h.counter;
      dest = at 5 (omega arith) ∙ h.dest;
      src = at 7 (omega arith) ∙ h.src;
    }

parse-IsBase :
    (fc n : ℕ) (b : List ℕ)
    → n ≤ 11
    → IsBase fc b
    → parse_beacon b (15 + 2 * n)
      ≡ ok (record {
        proto_ver = proto_ver_frame;
        frame_counter = fc;
        slot_map = get_map n 0 b;
        n_slots = n;
      })
unfolding parse_beacon
parse-IsBase fc n b h k =
    let half : u8 ((15 + 2 * n - 15) / 2) ≡ n = omega arith in
    let even : (15 + 2 * n - 15) % 2 ≡ 0 = omega arith in
    ground (arith, ap (λ (j : ℕ). get_map j 0 b) half)

length-base : (b : List ℕ) (fc : ℕ) → length (base b fc) ≡ length b
unfolding base put_u32 put_u16
length-base b fc = simp length-set

-- A beacon of at most eleven 16-bit slots and a 32-bit counter that is built into a buffer of
-- enough room is read back with its protocol version, frame counter and slot map, from the gateway
-- to all. A shorter buffer gives EMSGSIZE, and a missing map EINVAL.
pub beacon_round_trip :
    (buf : List ℕ) (buf_len fc : ℕ) (m : List ℕ)
    → buf_len ≤ length buf
    → fc < 2 ^ 32
    → All (λ v. v < 2 ^ 16) m
    → length m ≤ 11
    → let n = length m in
      (15 + 2 * n ≤ buf_len
        → (out : List ℕ) × (beacon_build (some buf) buf_len fc (some m) n ≡ ok (out, 15 + 2 * n))
          × (parse_beacon out (15 + 2 * n)
              ≡ ok (record {
                proto_ver = proto_ver_frame;
                frame_counter = fc;
                slot_map = m;
                n_slots = n;
              }))
          × (get_src_addr out ≡ addr_gateway)
          × (get_dest_addr out ≡ addr_bcast))
      × (buf_len < 15 + 2 * n → beacon_build (some buf) buf_len fc (some m) n ≡ err emsgsize)
      × (beacon_build (some buf) buf_len fc none n ≡ err einval)
unfolding beacon_build base
beacon_round_trip buf buf_len fc m l w ws few = (
  λ h.
      let n = length m in
      let b = base buf fc in
      let out = put_map n 0 b m in
      let held : IsBase fc out = put_map-IsBase fc n b m (
        on_cells 15 buf (λ x _. IsBase fc (base x fc)) (omega arith)
          (λ f rest. base-IsBase fc f rest w)) in
      let read : get_map n 0 out ≡ m =
        get_map-put_map n 0 b m (omega (arith, length-base buf fc)) (λ k. word_at m k ws)
        ∙ entries_all m in
      (
        out,
        ground arith,
        parse-IsBase fc n out few held
            ∙ ap
                (λ (ys : List ℕ). ok (record {
                  proto_ver = proto_ver_frame;
                  frame_counter = fc;
                  slot_map = ys;
                  n_slots = n;
                }))
                read,
        held.src,
        held.dest,
      ),
  λ h. ground arith,
  refl,
)

-- A beacon of more than eleven slots is built and then refused by the parser of the same module.
beacon_too_long : (b : List ℕ) (n : ℕ) → 11 < n → parse_beacon b (15 + 2 * n) ≡ err einval
unfolding parse_beacon
beacon_too_long b n h = ground arith

find_from_lem :
    (n i addr : ℕ) (m : List ℕ)
    → ((find_from n i m addr ≡ none) × ((k : ℕ) → i ≤ k → k < i + n → get_or m k 0 ≢ addr))
      ⊎ ((j : ℕ) × (find_from n i m addr ≡ some j)
          × (i ≤ j)
          × (j < i + n)
          × (get_or m j 0 ≡ addr)
          × ((k : ℕ) → i ≤ k → k < j → get_or m k 0 ≢ addr))
unfolding find_from
find_from_lem zero i addr m = inl (refl, λ k p q. absurd (omega arith))
find_from_lem (suc n) i addr m = elim (ℕ_discrete (get_or m i 0) addr) [
  | yes e ↦ inr (i, ground arith, omega arith, omega arith, e, λ k p q. absurd (omega arith))
  | no ne ↦ elim (find_from_lem n (i + 1) addr m) [
    | inl (none_found, all) ↦ inl (
      ground arith,
      λ k p q. elim (ℕ_discrete k i) [
        | yes e ↦ rw e ne
        | no k_ne ↦ all k (omega arith) (omega arith)
      ],
    )
    | inr (j, found, lo, hi, at, first) ↦ inr (
      j,
      ground arith,
      omega arith,
      omega arith,
      at,
      λ k p q. elim (ℕ_discrete k i) [ yes e ↦ rw e ne | no k_ne ↦ first k (omega arith) q ],
    )
  ]
]

-- The search gives the first slot that holds the address, and -1 exactly when none of the `n_slots`
-- does.
find_addr_lem :
    (m : List ℕ) (n addr : ℕ)
    → ((beacon_find_addr (some m) n addr ≡ none) × ((k : ℕ) → k < n → get_or m k 0 ≢ addr))
      ⊎ ((j : ℕ) × (beacon_find_addr (some m) n addr ≡ some j)
          × (j < n)
          × (get_or m j 0 ≡ addr)
          × ((k : ℕ) → k < j → get_or m k 0 ≢ addr))
unfolding beacon_find_addr
find_addr_lem m n addr = elim (find_from_lem n 0 addr m) [
  | inl (e, all) ↦ inl (e, λ k h. all k (omega arith) (omega arith))
  | inr (j, e, lo, hi, at, first) ↦ inr (j, e, omega arith, at, λ k h. first k (omega arith) h)
]
