-- ===== src/Frame/Ranging.antt =====
-- The DISC, MPOL and RESP frames of src/uwb_frame_802_15_4z.c.
use tag_testting.Common.{
  ℕ, zero, suc, ◌+◌, ◌*◌, List, [], ◌∷◌, Bool, ◌&&◌, ◌||◌, Option, none, some, ltb, leb, ◌==◌,
  if◌then◌else◌, not, set, get_or,
}
use tag_testting.Frame.Bytes.{byte, put_u16, put_u32, get_u16, get_u32}
use tag_testting.Frame.Header.{
  einval, ebadmsg, Result, ok, err, ◌>>=◌, Built, type_disc, type_mpol, type_resp, addr_bcast,
  write_hdr, is_valid,
}

abbrev pub len_disc : ℕ
len_disc = 14

abbrev pub len_resp : ℕ
len_resp = 20

abbrev pub max_anchors : ℕ
max_anchors = 4

-- `struct uwb_anchor_slot`
pub record AnchorSlot : Type 0 where
  pub addr : ℕ
  pub delay_us : ℕ

-- `uwb_frame_discovery_build`
unfoldable pub discovery_build : Option (List ℕ) → ℕ → ℕ → ℕ → Built
unfolding write_hdr
discovery_build buf buf_len src_addr tx_ts = do
  b ← write_hdr buf buf_len len_disc addr_bcast src_addr type_disc
  ok (put_u32 b 10 tx_ts, len_disc)

-- `uwb_frame_is_discovery`
unfoldable pub is_discovery : List ℕ → ℕ → Bool
unfolding is_valid
is_discovery buf len = is_valid buf len && byte buf 9 == type_disc && leb len_disc len

abbrev pub slot_at : List AnchorSlot → ℕ → AnchorSlot
slot_at slots i = get_or slots i (record { addr = 0; delay_us = 0 })

-- The loop of `uwb_frame_multipoll_build` over the `n` slots from index `i` on.
unfoldable pub put_slots : ℕ → ℕ → List ℕ → ℕ → List AnchorSlot → List ℕ
put_slots zero i buf o slots = buf
put_slots (suc n) i buf o slots =
    put_slots n (i + 1)
      (put_u16 (put_u16 buf o (slot_at slots i).addr) (o + 2) (slot_at slots i).delay_us) (o + 4)
      slots

-- The bytes of a multi-poll after the header.
abbrev pub multipoll_bytes : List ℕ → List AnchorSlot → ℕ → ℕ → List ℕ
multipoll_bytes b slots num_slots tx_ts =
    put_u32 (put_slots num_slots 0 (set b 10 num_slots) 11 slots) (11 + 4 * num_slots) tx_ts

-- `uwb_frame_multipoll_build`; `none` is a null pointer
unfoldable pub multipoll_build : Option (List ℕ) → ℕ → ℕ → Option (List AnchorSlot) → ℕ → ℕ → Built
unfolding write_hdr
multipoll_build none buf_len src_addr slots num_slots tx_ts = err einval
multipoll_build (some buf) buf_len src_addr none num_slots tx_ts = err einval
multipoll_build (some buf) buf_len src_addr (some slots) num_slots tx_ts =
    if num_slots == 0 || ltb max_anchors num_slots
    then err einval
    else (write_hdr (some buf) buf_len (15 + 4 * num_slots) addr_bcast src_addr type_mpol >>= λ b.
        ok (multipoll_bytes b slots num_slots tx_ts, 15 + 4 * num_slots))

-- `uwb_frame_is_multipoll`
unfoldable pub is_multipoll : List ℕ → ℕ → Bool
unfolding is_valid
is_multipoll buf len =
    if not (is_valid buf len)
    then Bool.false
    else if not (byte buf 9 == type_mpol)
    then Bool.false
    else if ltb len 12
    then Bool.false
    else if byte buf 10 == 0 || ltb max_anchors (byte buf 10)
    then Bool.false
    else leb (15 + 4 * byte buf 10) len

-- The loop of `uwb_frame_parse_multipoll`.
unfoldable pub get_slots : ℕ → List ℕ → ℕ → List AnchorSlot
get_slots zero buf o = []
get_slots (suc n) buf o =
    record { addr = get_u16 buf o; delay_us = get_u16 buf (o + 2) } ∷ get_slots n buf (o + 4)

-- What `uwb_frame_parse_multipoll` writes; `num_slots` is the length of the list.
pub record Multipoll : Type 0 where
  pub slots : List AnchorSlot
  pub num_slots : ℕ
  pub tx_ts : ℕ

-- `uwb_frame_parse_multipoll`, for outputs that are not null
unfoldable pub parse_multipoll : List ℕ → ℕ → Result Multipoll
unfolding is_multipoll
parse_multipoll buf len =
    if not (is_multipoll buf len)
    then err ebadmsg
    else ok (record {
      slots = get_slots (byte buf 10) buf 11;
      num_slots = byte buf 10;
      tx_ts = get_u32 buf (11 + 4 * byte buf 10);
    })

-- The bytes of a response after the header.
abbrev pub response_bytes : List ℕ → ℕ → ℕ → ℕ → List ℕ
response_bytes b tx_ts cir_power cir_quality =
    put_u16 (put_u32 (put_u32 b 10 tx_ts) 14 cir_power) 18 cir_quality

-- `uwb_frame_response_build`; `cir_power` is its 32-bit pattern
unfoldable pub response_build : Option (List ℕ) → ℕ → ℕ → ℕ → ℕ → ℕ → ℕ → Built
unfolding write_hdr
response_build buf buf_len src_addr dest_addr tx_ts cir_power cir_quality = do
  b ← write_hdr buf buf_len len_resp dest_addr src_addr type_resp
  ok (response_bytes b tx_ts cir_power cir_quality, len_resp)

-- `uwb_frame_is_response`
unfoldable pub is_response : List ℕ → ℕ → Bool
unfolding is_valid
is_response buf len = is_valid buf len && byte buf 9 == type_resp && leb len_resp len

-- What `uwb_frame_parse_discovery_response` writes.
pub record Response : Type 0 where
  pub src_addr : ℕ
  pub cir_power : ℕ
  pub cir_quality : ℕ

-- `uwb_frame_parse_discovery_response`, for arguments that are not null
unfoldable pub parse_discovery_response : List ℕ → ℕ → Result Response
unfolding is_response
parse_discovery_response buf len =
    if not (is_response buf len)
    then err ebadmsg
    else ok (record {
      src_addr = get_u16 buf 7;
      cir_power = get_u32 buf 14;
      cir_quality = get_u16 buf 18;
    })
