-- ===== src/Frame/Kinds.antt =====
-- A received frame is of one kind at most.
use tag_testting.Common.{ℕ, ◌+◌, ◌≤◌, ◌≡◌, ◌⊎◌, List, Bool, arith, if◌then◌else◌}
use tag_testting.Frame.Ranging.{is_discovery, is_multipoll, is_response}
use tag_testting.Frame.Beacon.{is_beacon}
use tag_testting.Frame.Seat.{is_join, is_grant, is_keepalive, is_release}
use tag_testting.Frame.Reports.{is_pos, is_alert}
use tag_testting.Frame.Header.{max_len, hdr_len}

-- How many of the ten recognisers accept the bytes.
unfoldable pub accepted : List ℕ → ℕ → ℕ
accepted buf len =
    one (is_discovery buf len)
    + one (is_multipoll buf len)
    + one (is_response buf len)
    + one (is_beacon buf len)
    + one (is_join buf len)
    + one (is_grant buf len)
    + one (is_keepalive buf len)
    + one (is_release buf len)
    + one (is_pos buf len)
    + one (is_alert buf len)
  where
    one : Bool → ℕ
    one b = if b then 1 else 0

-- No bytes are accepted by two recognisers, and what is accepted is 10 to 37 bytes long.
pub kinds_exclusive :
    (buf : List ℕ) (len : ℕ)
    → (accepted buf len ≡ 0) ⊎ ((accepted buf len ≡ 1) × (hdr_len ≤ len) × (len ≤ max_len))
unfolding accepted is_discovery is_multipoll is_response is_beacon is_join is_grant is_keepalive
    is_release is_pos is_alert
kinds_exclusive buf len = ground arith
