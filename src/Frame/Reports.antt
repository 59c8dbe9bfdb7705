-- ===== src/Frame/Reports.antt =====
-- The POS and ALERT frames of src/uwb_frame_802_15_4z.c.
use tag_testting.Common.{ℕ, List, Bool, ◌&&◌, Option, ◌==◌, if◌then◌else◌, not, set, bit_and}
use tag_testting.Alert.Message.{Alert}
use tag_testting.Frame.Bytes.{byte, put_u16, put_u32, get_u16, get_u32, put_bytes, get_bytes}
use tag_testting.Frame.Header.{
  einval, Result, ok, err, ◌>>=◌, Built, type_pos, type_alert, addr_gateway, write_hdr, is_valid,
  get_src_addr,
}

abbrev pub len_pos : ℕ
len_pos = 24

-- What `uwb_frame_parse_pos` writes; the floats are their bits
pub record PosReport : Type 0 where
  pub src_addr : ℕ
  pub x : ℕ
  pub y : ℕ
  pub residual_m : ℕ
  pub n_anchors : ℕ
  pub batt_soc : ℕ

-- The bytes of a position report after the header.
abbrev pub pos_bytes : List ℕ → ℕ → ℕ → ℕ → ℕ → ℕ → List ℕ
pos_bytes b x y residual_m n_anchors batt_soc =
    set (set (put_u32 (put_u32 (put_u32 b 10 x) 14 y) 18 residual_m) 22 n_anchors) 23 batt_soc

-- `uwb_frame_pos_build`
unfoldable pub pos_build : Option (List ℕ) → ℕ → ℕ → ℕ → ℕ → ℕ → ℕ → ℕ → Built
unfolding write_hdr
pos_build buf buf_len src_addr x y residual_m n_anchors batt_soc = do
  b ← write_hdr buf buf_len len_pos addr_gateway src_addr type_pos
  ok (pos_bytes b x y residual_m n_anchors batt_soc, len_pos)

-- `uwb_frame_is_pos`
unfoldable pub is_pos : List ℕ → ℕ → Bool
unfolding is_valid
is_pos buf len = len == len_pos && is_valid buf len && byte buf 9 == type_pos

-- `uwb_frame_parse_pos`
unfoldable pub parse_pos : List ℕ → ℕ → Result PosReport
unfolding is_pos get_src_addr
parse_pos buf len =
    if not (is_pos buf len)
    then err einval
    else ok (record {
      src_addr = get_src_addr buf;
      x = get_u32 buf 10;
      y = get_u32 buf 14;
      residual_m = get_u32 buf 18;
      n_anchors = byte buf 22;
      batt_soc = byte buf 23;
    })

abbrev pub len_alert : ℕ
len_alert = 34

-- The bytes of an alert after the header.
abbrev pub alert_bytes : List ℕ → Alert → List ℕ
alert_bytes b a =
    let b = set b 10 a.state in
    let b = set b 11 a.epoch in
    let b = set b 12 a.repeat_seq in
    let b = set b 13 a.sender_hop in
    let b = set b 14 a.ttl in
    let b = put_bytes 8 0 b 15 a.orig_eui in
    let b = put_u16 b 23 a.orig_addr in
    let b = set b 25 a.batt_soc in let b = put_u32 b 26 a.last_x in put_u32 b 30 a.last_y

-- `uwb_frame_alert_build`, for a message that is not null
unfoldable pub alert_build : Option (List ℕ) → ℕ → ℕ → Alert → Built
unfolding write_hdr
alert_build buf buf_len src_addr a = do
  b ← write_hdr buf buf_len len_alert addr_gateway src_addr type_alert
  ok (alert_bytes b a, len_alert)

-- `uwb_frame_is_alert`
unfoldable pub is_alert : List ℕ → ℕ → Bool
unfolding is_valid
is_alert buf len = len == len_alert && is_valid buf len && byte buf 9 == type_alert

-- `uwb_frame_parse_alert`, for an output that is not null
unfoldable pub parse_alert : List ℕ → ℕ → Result Alert
unfolding is_alert
parse_alert buf len =
    if not (is_alert buf len)
    then err einval
    else if not (bit_and (byte buf 10) 0xfe == 0)
    then err einval
    else ok (record {
      state = byte buf 10;
      epoch = byte buf 11;
      repeat_seq = byte buf 12;
      sender_hop = byte buf 13;
      ttl = byte buf 14;
      orig_eui = get_bytes 8 buf 15;
      orig_addr = get_u16 buf 23;
      batt_soc = byte buf 25;
      last_x = get_u32 buf 26;
      last_y = get_u32 buf 30;
    })
