-- ===== src/Frame/RangingTrips.antt =====
-- Round trips of the DISC, MPOL and RESP frames.
use tag_testting.Common.{
  ℕ, ◌+◌, ◌*◌, ◌^◌, ◌<◌, ◌≤◌, ◌≡◌, List, [], ◌∷◌, All, some, length, drop, arith,
}
use tag_testting.Frame.Bytes.{put_u16, put_u32, get_u16, get_u32, join16, join32, cells, on_cells}
use tag_testting.Frame.Header.{
  einval, emsgsize, ok, err, addr_bcast, type_mpol, type_resp, hdr_bytes, get_src_addr,
  get_dest_addr,
}
use tag_testting.Frame.Ranging.{
  AnchorSlot, Response, len_resp, max_anchors, put_slots, multipoll_bytes, multipoll_build,
  get_slots, parse_multipoll, response_bytes, response_build, parse_discovery_response,
}

abbrev response_out : Response → ℕ → ℕ → List ℕ → List ℕ
response_out r dest tx_ts b =
    response_bytes (hdr_bytes b dest r.src_addr type_resp) tx_ts r.cir_power r.cir_quality

-- The frame in `out` reads as the response `r` to `dest`, before `rest`.
abbrev CarriesResponse : Response → ℕ → List ℕ → List ℕ → Type 0
CarriesResponse r dest out rest =
    (parse_discovery_response out len_resp ≡ ok r)
    × (get_dest_addr out ≡ dest)
    × (drop len_resp out ≡ rest)

response_cells :
    (r : Response) (dest tx_ts : ℕ) (f : ℕ → ℕ) (rest : List ℕ)
    → r.src_addr < 2 ^ 16
    → r.cir_power < 2 ^ 32
    → r.cir_quality < 2 ^ 16
    → dest < 2 ^ 16
    → CarriesResponse r dest (response_out r dest tx_ts (cells 20 f rest)) rest
unfolding parse_discovery_response put_u16 put_u32 get_u16 get_u32 get_dest_addr
response_cells r dest tx_ts f rest s p q d =
    ground (arith, join16 r.src_addr, join16 dest, join32 r.cir_power, join16 r.cir_quality)

-- A discovery response that is built into a buffer of enough room is read back as it was, with its
-- destination; the bytes past the frame are not touched. A shorter buffer gives EMSGSIZE.
response_round_trip :
    (buf : List ℕ) (buf_len dest tx_ts : ℕ) (r : Response)
    → buf_len ≤ length buf
    → r.src_addr < 2 ^ 16
    → r.cir_power < 2 ^ 32
    → r.cir_quality < 2 ^ 16
    → dest < 2 ^ 16
    → let built =
        response_build (some buf) buf_len r.src_addr dest tx_ts r.cir_power r.cir_quality in
      (len_resp ≤ buf_len
        → (out : List ℕ) × (built ≡ ok (out, len_resp))
          × CarriesResponse r dest out (drop len_resp buf))
      × (buf_len < len_resp → built ≡ err emsgsize)
unfolding response_build
response_round_trip buf buf_len dest tx_ts r l s p q d = (
  λ h. (
    response_out r dest tx_ts buf,
    ground arith,
    on_cells 20 buf (λ b. CarriesResponse r dest (response_out r dest tx_ts b)) (omega arith)
        (λ f rest. response_cells r dest tx_ts f rest s p q d),
  ),
  λ h. ground arith,
)

-- A slot of two 16-bit words.
abbrev pub IsWordSlot : AnchorSlot → Type 0
IsWordSlot s = (s.addr < 2 ^ 16) × (s.delay_us < 2 ^ 16)

abbrev multipoll_out : List AnchorSlot → ℕ → ℕ → List ℕ → List ℕ
multipoll_out slots src tx_ts b =
    multipoll_bytes (hdr_bytes b addr_bcast src type_mpol) slots (length slots) tx_ts

-- The frame in `out` reads as a multi-poll of the slots from `src` to all, before `rest`.
abbrev pub CarriesMultipoll : List AnchorSlot → ℕ → ℕ → List ℕ → List ℕ → Type 0
CarriesMultipoll slots src tx_ts out rest =
    (parse_multipoll out (15 + 4 * length slots)
      ≡ ok (record { slots = slots; num_slots = length slots; tx_ts = tx_ts }))
    × (get_src_addr out ≡ src)
    × (get_dest_addr out ≡ addr_bcast)
    × (drop (15 + 4 * length slots) out ≡ rest)

multipoll_cells :
    (slots : List AnchorSlot) (src tx_ts : ℕ) (f : ℕ → ℕ) (rest : List ℕ)
    → 0 < length slots
    → length slots ≤ max_anchors
    → All IsWordSlot slots
    → src < 2 ^ 16
    → tx_ts < 2 ^ 32
    → CarriesMultipoll slots src tx_ts
        (multipoll_out slots src tx_ts (cells (15 + 4 * length slots) f rest))
        rest
unfolding parse_multipoll put_slots get_slots put_u16 put_u32 get_u16 get_u32 get_src_addr
    get_dest_addr
multipoll_cells [] src tx_ts f rest p m w s t = absurd (omega arith)
multipoll_cells (a ∷ []) src tx_ts f rest p m w s t =
    ground (arith, join16 src, join32 tx_ts, join16 a.addr, join16 a.delay_us)
multipoll_cells (a ∷ b ∷ []) src tx_ts f rest p m w s t = ground (
  arith,
  join16 src,
  join32 tx_ts,
  join16 a.addr,
  join16 a.delay_us,
  join16 b.addr,
  join16 b.delay_us,
)
multipoll_cells (a ∷ b ∷ c ∷ []) src tx_ts f rest p m w s t = ground (
  arith,
  join16 src,
  join32 tx_ts,
  join16 a.addr,
  join16 a.delay_us,
  join16 b.addr,
  join16 b.delay_us,
  join16 c.addr,
  join16 c.delay_us,
)
multipoll_cells (a ∷ b ∷ c ∷ d ∷ []) src tx_ts f rest p m w s t = ground (
  arith,
  join16 src,
  join32 tx_ts,
  join16 a.addr,
  join16 a.delay_us,
  join16 b.addr,
  join16 b.delay_us,
  join16 c.addr,
  join16 c.delay_us,
  join16 d.addr,
  join16 d.delay_us,
)
multipoll_cells (a ∷ b ∷ c ∷ d ∷ e ∷ slots) src tx_ts f rest p m w s t = absurd (omega arith)

-- A multi-poll of one to four anchors, of words of their width, that is built into a buffer of
-- enough room is read back with the same slots and time stamp; the bytes past the frame are not
-- touched. No anchor, or more than four, gives EINVAL, and a shorter buffer EMSGSIZE.
pub multipoll_round_trip :
    (buf : List ℕ) (buf_len src tx_ts : ℕ) (slots : List AnchorSlot)
    → buf_len ≤ length buf
    → All IsWordSlot slots
    → src < 2 ^ 16
    → tx_ts < 2 ^ 32
    → let n = length slots in
      let built = multipoll_build (some buf) buf_len src (some slots) n tx_ts in
      (0 < n
        → n ≤ max_anchors
        → 15 + 4 * n ≤ buf_len
        → (out : List ℕ) × (built ≡ ok (out, 15 + 4 * n))
          × CarriesMultipoll slots src tx_ts out (drop (15 + 4 * n) buf))
      × (0 < n → n ≤ max_anchors → buf_len < 15 + 4 * n → built ≡ err emsgsize)
      × (max_anchors < n → built ≡ err einval)
      × (n ≡ 0 → built ≡ err einval)
unfolding multipoll_build
multipoll_round_trip buf buf_len src tx_ts slots l w s t = (
  λ p m h. (
    multipoll_out slots src tx_ts buf,
    ground arith,
    on_cells (15 + 4 * length slots) buf
        (λ b. CarriesMultipoll slots src tx_ts (multipoll_out slots src tx_ts b)) (omega arith)
        (λ f rest. multipoll_cells slots src tx_ts f rest p m w s t),
  ),
  λ p m h. ground arith,
  λ h. ground arith,
  λ h. ground arith,
)
