-- ===== src/Frame/Beacon.antt =====
-- The BEACON frame of src/uwb_frame_802_15_4z.c.
use tag_testting.Common.{
  ℕ, zero, suc, ◌+◌, ◌*◌, ◌-◌, ◌/◌, ◌%◌, List, [], ◌∷◌, Bool, ◌&&◌, Option, none, some, leb, ◌==◌,
  if◌then◌else◌, not, set, get_or, u8,
}
use tag_testting.Frame.Bytes.{byte, put_u16, put_u32, get_u16, get_u32}
use tag_testting.Frame.Header.{
  einval, Result, ok, err, ◌>>=◌, Built, type_beacon, addr_bcast, addr_gateway, write_hdr, is_valid,
}

abbrev pub proto_ver_frame : ℕ
proto_ver_frame = 2

-- The loop of `uwb_frame_beacon_build` over the `n` entries from index `i` on.
unfoldable pub put_map : ℕ → ℕ → List ℕ → List ℕ → List ℕ
put_map zero i buf slot_map = buf
put_map (suc n) i buf slot_map =
    put_map n (i + 1) (put_u16 buf (15 + 2 * i) (get_or slot_map i 0)) slot_map

-- The bytes of a beacon after the header.
abbrev pub beacon_bytes : List ℕ → ℕ → List ℕ → ℕ → List ℕ
beacon_bytes b frame_counter slot_map n_slots =
    put_map n_slots 0 (put_u32 (set b 10 proto_ver_frame) 11 frame_counter) slot_map

-- `uwb_frame_beacon_build`; `none` is a null pointer
unfoldable pub beacon_build : Option (List ℕ) → ℕ → ℕ → Option (List ℕ) → ℕ → Built
unfolding write_hdr
beacon_build buf buf_len frame_counter none n_slots = err einval
beacon_build buf buf_len frame_counter (some slot_map) n_slots =
    write_hdr buf buf_len (15 + 2 * n_slots) addr_bcast addr_gateway type_beacon >>= λ b.
    ok (beacon_bytes b frame_counter slot_map n_slots, 15 + 2 * n_slots)

-- `uwb_frame_is_beacon`
unfoldable pub is_beacon : List ℕ → ℕ → Bool
unfolding is_valid
is_beacon buf len = leb 15 len && is_valid buf len && byte buf 9 == type_beacon

-- The loop of `uwb_frame_parse_beacon`.
unfoldable pub get_map : ℕ → ℕ → List ℕ → List ℕ
get_map zero i buf = []
get_map (suc n) i buf = get_u16 buf (15 + 2 * i) ∷ get_map n (i + 1) buf

-- What `uwb_frame_parse_beacon` writes.
pub record Beacon : Type 0 where
  pub proto_ver : ℕ
  pub frame_counter : ℕ
  pub slot_map : List ℕ
  pub n_slots : ℕ

-- `uwb_frame_parse_beacon`
unfoldable pub parse_beacon : List ℕ → ℕ → Result Beacon
unfolding is_beacon
parse_beacon buf len =
    if not (is_beacon buf len)
    then err einval
    else if not ((len - 15) % 2 == 0)
    then err einval
    else ok (record {
      proto_ver = byte buf 10;
      frame_counter = get_u32 buf 11;
      slot_map = get_map (u8 ((len - 15) / 2)) 0 buf;
      n_slots = u8 ((len - 15) / 2);
    })

-- The loop of `uwb_frame_beacon_find_addr` over the `n` entries from index `i` on.
unfoldable pub find_from : ℕ → ℕ → List ℕ → ℕ → Option ℕ
find_from zero i slot_map addr = none
find_from (suc n) i slot_map addr =
    let rest = find_from n (i + 1) slot_map addr in
    if get_or slot_map i 0 == addr then some i else rest

-- `uwb_frame_beacon_find_addr`; `none` is its -1, and a null map
unfoldable pub beacon_find_addr : Option (List ℕ) → ℕ → ℕ → Option ℕ
unfolding find_from
beacon_find_addr none n_slots addr = none
beacon_find_addr (some slot_map) n_slots addr = find_from n_slots 0 slot_map addr
