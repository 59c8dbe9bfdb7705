-- ===== src/Frame/SeatTrips.antt =====
-- Round trips of the JOIN, GRANT, KEEPALIVE and RELEASE frames.
use tag_testting.Common.{ℕ, ◌^◌, ◌<◌, ◌≤◌, ◌≡◌, List, none, some, length, drop, arith}
use tag_testting.Frame.Bytes.{
  put_u16, get_u16, put_bytes, get_bytes, join16, cells, on_cells, cells_all,
}
use tag_testting.Frame.Header.{
  einval, emsgsize, ok, err, addr_gateway, addr_unassoc, addr_bcast, type_join, type_grant,
  type_keepalive, hdr_bytes, get_src_addr, get_dest_addr,
}
use tag_testting.Frame.Seat.{
  Join, Grant, Keepalive, len_join, len_grant, len_keepalive, join_bytes, grant_bytes,
  keepalive_bytes, join_build, parse_join, grant_build, parse_grant, keepalive_build,
  parse_keepalive,
}

abbrev join_out : Join → List ℕ → List ℕ
join_out j b = join_bytes (hdr_bytes b addr_gateway addr_unassoc type_join) j.eui j.req_tier

-- The frame in `out` reads as the join request `j` of a tag with no address, before `rest`.
abbrev pub CarriesJoin : Join → List ℕ → List ℕ → Type 0
CarriesJoin j out rest =
    (parse_join out len_join ≡ ok j)
    × (get_src_addr out ≡ addr_unassoc)
    × (get_dest_addr out ≡ addr_gateway)
    × (drop len_join out ≡ rest)

join_cells :
    (j : Join) (f : ℕ → ℕ) (rest : List ℕ)
    → length j.eui ≡ 8
    → CarriesJoin j (join_out j (cells 19 f rest)) rest
unfolding parse_join put_u16 put_bytes get_u16 get_bytes get_src_addr get_dest_addr
join_cells j f rest e = ground (arith, cells_all 8 j.eui)

-- A join request of an 8-byte EUI that is built into a buffer of enough room is read back as it
-- was, from the unassociated address to the gateway; the bytes past the frame are not touched. A
-- shorter buffer gives EMSGSIZE, and a missing EUI gives EINVAL.
pub join_round_trip :
    (buf : List ℕ) (buf_len : ℕ) (j : Join)
    → buf_len ≤ length buf
    → length j.eui ≡ 8
    → (len_join ≤ buf_len
        → (out : List ℕ) × (join_build (some buf) buf_len (some j.eui) j.req_tier
            ≡ ok (out, len_join))
          × CarriesJoin j out (drop len_join buf))
      × (buf_len < len_join → join_build (some buf) buf_len (some j.eui) j.req_tier ≡ err emsgsize)
      × (len_join ≤ buf_len → join_build (some buf) buf_len none j.req_tier ≡ err einval)
unfolding join_build
join_round_trip buf buf_len j l e = (
  λ h. (
    join_out j buf,
    ground arith,
    on_cells 19 buf (λ b. CarriesJoin j (join_out j b)) (omega arith)
        (λ f rest. join_cells j f rest e),
  ),
  λ h. ground arith,
  λ h. ground arith,
)

abbrev grant_out : Grant → List ℕ → List ℕ
grant_out g b =
    grant_bytes (hdr_bytes b addr_bcast addr_gateway type_grant) g.eui g.short_addr g.slot_index
      g.rate_tier g.lease

-- The frame in `out` reads as the grant `g` of the gateway to all, before `rest`.
abbrev pub CarriesGrant : Grant → List ℕ → List ℕ → Type 0
CarriesGrant g out rest =
    (parse_grant out len_grant ≡ ok g)
    × (get_src_addr out ≡ addr_gateway)
    × (get_dest_addr out ≡ addr_bcast)
    × (drop len_grant out ≡ rest)

grant_cells :
    (g : Grant) (f : ℕ → ℕ) (rest : List ℕ)
    → length g.eui ≡ 8
    → g.short_addr < 2 ^ 16
    → g.lease < 2 ^ 16
    → CarriesGrant g (grant_out g (cells 24 f rest)) rest
unfolding parse_grant put_u16 put_bytes get_u16 get_bytes get_src_addr get_dest_addr
grant_cells g f rest e s l = ground (arith, cells_all 8 g.eui, join16 g.short_addr, join16 g.lease)

-- A grant of an 8-byte EUI, a 16-bit address and lease that is built into a buffer of enough room
-- is read back as it was, from the gateway to the broadcast address; the bytes past the frame are
-- not touched. A shorter buffer gives EMSGSIZE.
pub grant_round_trip :
    (buf : List ℕ) (buf_len : ℕ) (g : Grant)
    → buf_len ≤ length buf
    → length g.eui ≡ 8
    → g.short_addr < 2 ^ 16
    → g.lease < 2 ^ 16
    → let built =
        grant_build (some buf) buf_len (some g.eui) g.short_addr g.slot_index g.rate_tier g.lease in
      (len_grant ≤ buf_len
        → (out : List ℕ) × (built ≡ ok (out, len_grant)) × CarriesGrant g out (drop len_grant buf))
      × (buf_len < len_grant → built ≡ err emsgsize)
unfolding grant_build
grant_round_trip buf buf_len g l e s w = (
  λ h. (
    grant_out g buf,
    ground arith,
    on_cells 24 buf (λ b. CarriesGrant g (grant_out g b)) (omega arith)
        (λ f rest. grant_cells g f rest e s w),
  ),
  λ h. ground arith,
)

abbrev keepalive_out : Keepalive → List ℕ → List ℕ
keepalive_out k b =
    keepalive_bytes (hdr_bytes b addr_gateway k.src_addr type_keepalive) k.req_tier k.slot_index

-- The frame in `out` reads as the keepalive `k`, to the gateway, before `rest`.
abbrev CarriesKeepalive : Keepalive → List ℕ → List ℕ → Type 0
CarriesKeepalive k out rest =
    (parse_keepalive out len_keepalive ≡ ok k)
    × (get_dest_addr out ≡ addr_gateway)
    × (drop len_keepalive out ≡ rest)

keepalive_cells :
    (k : Keepalive) (f : ℕ → ℕ) (rest : List ℕ)
    → k.src_addr < 2 ^ 16
    → CarriesKeepalive k (keepalive_out k (cells 12 f rest)) rest
unfolding parse_keepalive put_u16 get_u16 get_dest_addr
keepalive_cells k f rest s = ground (arith, join16 k.src_addr)

-- A keepalive that is built into a buffer of enough room is read back as it was; the bytes past the
-- frame are not touched. A shorter buffer gives EMSGSIZE.
keepalive_round_trip :
    (buf : List ℕ) (buf_len : ℕ) (k : Keepalive)
    → buf_len ≤ length buf
    → k.src_addr < 2 ^ 16
    → let built = keepalive_build (some buf) buf_len k.src_addr k.req_tier k.slot_index in
      (len_keepalive ≤ buf_len
        → (out : List ℕ) × (built ≡ ok (out, len_keepalive))
          × CarriesKeepalive k out (drop len_keepalive buf))
      × (buf_len < len_keepalive → built ≡ err emsgsize)
unfolding keepalive_build
keepalive_round_trip buf buf_len k l s = (
  λ h. (
    keepalive_out k buf,
    ground arith,
    on_cells 12 buf (λ b. CarriesKeepalive k (keepalive_out k b)) (omega arith)
        (λ f rest. keepalive_cells k f rest s),
  ),
  λ h. ground arith,
)
