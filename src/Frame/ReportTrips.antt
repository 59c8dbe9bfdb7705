-- ===== src/Frame/ReportTrips.antt =====
-- Round trips of the POS and ALERT frames.
use tag_testting.Common.{
  ℕ, zero, suc, ◌^◌, ◌<◌, ◌≤◌, ◌≡◌, refl, List, none, some, length, drop, arith, bit_and,
}
use tag_testting.Alert.Message.{Alert}
use tag_testting.Frame.Bytes.{
  put_u16, put_u32, get_u16, get_u32, put_bytes, get_bytes, join16, join32, cells, on_cells,
  cells_all,
}
use tag_testting.Frame.Header.{
  einval, emsgsize, ok, err, addr_gateway, type_alert, type_pos, hdr_bytes, get_src_addr,
  get_dest_addr,
}
use tag_testting.Frame.Reports.{
  PosReport, len_pos, pos_bytes, pos_build, parse_pos, len_alert, alert_bytes, alert_build,
  parse_alert,
}

-- The fields of an alert as the wire holds them.
pub record IsWire (a : Alert) : Type 0 where
  pub state_known : a.state ≤ 1
  pub eui_len : length a.orig_eui ≡ 8
  pub addr_word : a.orig_addr < 2 ^ 16
  pub x_word : a.last_x < 2 ^ 32
  pub y_word : a.last_y < 2 ^ 32

state_clean : (s : ℕ) → s ≤ 1 → bit_and s 0xfe ≡ 0
state_clean zero h = refl
state_clean (suc zero) h = refl
state_clean (suc (suc s)) h = absurd (omega arith)

-- The frame in `out` reads as the alert `a` from `src` to the gateway, before `rest`.
abbrev pub CarriesAlert : Alert → ℕ → List ℕ → List ℕ → Type 0
CarriesAlert a src out rest =
    (parse_alert out len_alert ≡ ok a)
    × (get_src_addr out ≡ src)
    × (get_dest_addr out ≡ addr_gateway)
    × (drop len_alert out ≡ rest)

alert_cells :
    (src : ℕ) (a : Alert) (f : ℕ → ℕ) (rest : List ℕ)
    → IsWire a
    → src < 2 ^ 16
    → CarriesAlert a src
        (alert_bytes (hdr_bytes (cells 34 f rest) addr_gateway src type_alert) a)
        rest
unfolding parse_alert put_u16 put_u32 put_bytes get_u16 get_u32 get_bytes get_src_addr get_dest_addr
alert_cells src a f rest w s = ground (
  arith,
  state_clean a.state,
  cells_all 8 a.orig_eui,
  join16 src,
  join16 a.orig_addr,
  join32 a.last_x,
  join32 a.last_y,
)

-- An alert whose fields fit the wire and that is built into a buffer of enough room is read back as
-- it was, with the sender in the source address and the gateway in the destination; the bytes past
-- the frame are not touched. A shorter buffer, or none, gives its error and no frame.
pub alert_round_trip :
    (buf : List ℕ) (buf_len src : ℕ) (a : Alert)
    → buf_len ≤ length buf
    → IsWire a
    → src < 2 ^ 16
    → (len_alert ≤ buf_len
        → (out : List ℕ) × (alert_build (some buf) buf_len src a ≡ ok (out, len_alert))
          × CarriesAlert a src out (drop len_alert buf))
      × (buf_len < len_alert → alert_build (some buf) buf_len src a ≡ err emsgsize)
      × (alert_build none buf_len src a ≡ err einval)
unfolding alert_build
alert_round_trip buf buf_len src a l w s = (
  λ h. (
    alert_bytes (hdr_bytes buf addr_gateway src type_alert) a,
    ground arith,
    on_cells 34 buf
        (λ b. CarriesAlert a src (alert_bytes (hdr_bytes b addr_gateway src type_alert) a))
        (omega arith) (λ f rest. alert_cells src a f rest w s),
  ),
  λ h. ground arith,
  refl,
)

-- The frame in `out` reads as the position report `p`, to the gateway, before `rest`.
abbrev pub CarriesPos : PosReport → List ℕ → List ℕ → Type 0
CarriesPos p out rest =
    (parse_pos out len_pos ≡ ok p) × (get_dest_addr out ≡ addr_gateway) × (drop len_pos out ≡ rest)

abbrev pos_out : PosReport → List ℕ → List ℕ
pos_out p b =
    pos_bytes (hdr_bytes b addr_gateway p.src_addr type_pos) p.x p.y p.residual_m p.n_anchors
      p.batt_soc

pos_cells :
    (p : PosReport) (f : ℕ → ℕ) (rest : List ℕ)
    → p.src_addr < 2 ^ 16
    → p.x < 2 ^ 32
    → p.y < 2 ^ 32
    → p.residual_m < 2 ^ 32
    → CarriesPos p (pos_out p (cells 24 f rest)) rest
unfolding parse_pos put_u16 put_u32 get_u16 get_u32 get_dest_addr
pos_cells p f rest s x y r =
    ground (arith, join16 p.src_addr, join32 p.x, join32 p.y, join32 p.residual_m)

-- A position report whose fields are words of their width and that is built into a buffer of enough
-- room is read back as it was; the bytes past the frame are not touched. A shorter buffer gives
-- EMSGSIZE and no frame.
pub pos_round_trip :
    (buf : List ℕ) (buf_len : ℕ) (p : PosReport)
    → buf_len ≤ length buf
    → p.src_addr < 2 ^ 16
    → p.x < 2 ^ 32
    → p.y < 2 ^ 32
    → p.residual_m < 2 ^ 32
    → let built =
        pos_build (some buf) buf_len p.src_addr p.x p.y p.residual_m p.n_anchors p.batt_soc in
      (len_pos ≤ buf_len
        → (out : List ℕ) × (built ≡ ok (out, len_pos)) × CarriesPos p out (drop len_pos buf))
      × (buf_len < len_pos → built ≡ err emsgsize)
unfolding pos_build
pos_round_trip buf buf_len p l s x y r = (
  λ h. (
    pos_out p buf,
    ground arith,
    on_cells 24 buf (λ b. CarriesPos p (pos_out p b)) (omega arith)
        (λ f rest. pos_cells p f rest s x y r),
  ),
  λ h. ground arith,
)
