-- ===== src/Frame/Seat.antt =====
-- The JOIN, GRANT, KEEPALIVE and RELEASE frames of src/uwb_frame_802_15_4z.c.
use tag_testting.Common.{ℕ, List, Bool, ◌&&◌, Option, none, some, ◌==◌, if◌then◌else◌, not, set}
use tag_testting.Frame.Bytes.{byte, put_u16, get_u16, put_bytes, get_bytes}
use tag_testting.Frame.Header.{
  einval, Result, ok, err, ◌>>=◌, Built, type_join, type_grant, type_keepalive, type_release,
  addr_gateway, addr_unassoc, addr_bcast, write_hdr, is_valid, get_src_addr,
}

abbrev pub len_join : ℕ
len_join = 19

abbrev pub len_grant : ℕ
len_grant = 24

abbrev pub len_keepalive : ℕ
len_keepalive = 12

abbrev pub len_release : ℕ
len_release = 10

-- A pointer that the builders check.
abbrev pub non_null : Option (List ℕ) → Result (List ℕ)
non_null none = err einval
non_null (some p) = ok p

abbrev pub join_bytes : List ℕ → List ℕ → ℕ → List ℕ
join_bytes b eui req_tier = set (put_bytes 8 0 b 10 eui) 18 req_tier

-- `uwb_frame_join_build`
unfoldable pub join_build : Option (List ℕ) → ℕ → Option (List ℕ) → ℕ → Built
unfolding write_hdr
join_build buf buf_len eui req_tier = do
  b ← write_hdr buf buf_len len_join addr_gateway addr_unassoc type_join
  e ← non_null eui
  ok (join_bytes b e req_tier, len_join)

-- `uwb_frame_is_join`
unfoldable pub is_join : List ℕ → ℕ → Bool
unfolding is_valid
is_join buf len = len == len_join && is_valid buf len && byte buf 9 == type_join

-- What `uwb_frame_parse_join` writes.
pub record Join : Type 0 where
  pub eui : List ℕ
  pub req_tier : ℕ

-- `uwb_frame_parse_join`
unfoldable pub parse_join : List ℕ → ℕ → Result Join
unfolding is_join
parse_join buf len =
    if not (is_join buf len)
    then err einval
    else ok (record { eui = get_bytes 8 buf 10; req_tier = byte buf 18 })

-- What `uwb_frame_parse_grant` writes.
pub record Grant : Type 0 where
  pub eui : List ℕ
  pub short_addr : ℕ
  pub slot_index : ℕ
  pub rate_tier : ℕ
  pub lease : ℕ

abbrev pub grant_bytes : List ℕ → List ℕ → ℕ → ℕ → ℕ → ℕ → List ℕ
grant_bytes b eui short_addr slot_index rate_tier lease =
    put_u16 (set (set (put_u16 (put_bytes 8 0 b 10 eui) 18 short_addr) 20 slot_index) 21 rate_tier)
      22 lease

-- `uwb_frame_grant_build`
unfoldable pub grant_build : Option (List ℕ) → ℕ → Option (List ℕ) → ℕ → ℕ → ℕ → ℕ → Built
unfolding write_hdr
grant_build buf buf_len eui short_addr slot_index rate_tier lease = do
  b ← write_hdr buf buf_len len_grant addr_bcast addr_gateway type_grant
  e ← non_null eui
  ok (grant_bytes b e short_addr slot_index rate_tier lease, len_grant)

-- `uwb_frame_is_grant`
unfoldable pub is_grant : List ℕ → ℕ → Bool
unfolding is_valid
is_grant buf len = len == len_grant && is_valid buf len && byte buf 9 == type_grant

-- `uwb_frame_parse_grant`
unfoldable pub parse_grant : List ℕ → ℕ → Result Grant
unfolding is_grant
parse_grant buf len =
    if not (is_grant buf len)
    then err einval
    else ok (record {
      eui = get_bytes 8 buf 10;
      short_addr = get_u16 buf 18;
      slot_index = byte buf 20;
      rate_tier = byte buf 21;
      lease = get_u16 buf 22;
    })

-- What `uwb_frame_parse_keepalive` writes.
pub record Keepalive : Type 0 where
  pub src_addr : ℕ
  pub req_tier : ℕ
  pub slot_index : ℕ

abbrev pub keepalive_bytes : List ℕ → ℕ → ℕ → List ℕ
keepalive_bytes b req_tier slot_index = set (set b 10 req_tier) 11 slot_index

-- `uwb_frame_keepalive_build`
unfoldable pub keepalive_build : Option (List ℕ) → ℕ → ℕ → ℕ → ℕ → Built
unfolding write_hdr
keepalive_build buf buf_len src_addr req_tier slot_index = do
  b ← write_hdr buf buf_len len_keepalive addr_gateway src_addr type_keepalive
  ok (keepalive_bytes b req_tier slot_index, len_keepalive)

-- `uwb_frame_is_keepalive`
unfoldable pub is_keepalive : List ℕ → ℕ → Bool
unfolding is_valid
is_keepalive buf len = len == len_keepalive && is_valid buf len && byte buf 9 == type_keepalive

-- `uwb_frame_parse_keepalive`
unfoldable pub parse_keepalive : List ℕ → ℕ → Result Keepalive
unfolding is_keepalive get_src_addr
parse_keepalive buf len =
    if not (is_keepalive buf len)
    then err einval
    else ok
        (record { src_addr = get_src_addr buf; req_tier = byte buf 10; slot_index = byte buf 11 })

-- `uwb_frame_release_build`
unfoldable pub release_build : Option (List ℕ) → ℕ → ℕ → Built
unfolding write_hdr
release_build buf buf_len src_addr = do
  b ← write_hdr buf buf_len len_release addr_gateway src_addr type_release
  ok (b, len_release)

-- `uwb_frame_is_release`
unfoldable pub is_release : List ℕ → ℕ → Bool
unfolding is_valid
is_release buf len = len == len_release && is_valid buf len && byte buf 9 == type_release
