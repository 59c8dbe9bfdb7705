-- ===== src/Frame/Header.antt =====
-- The common header of the frames and its validation.
use tag_testting.Common.{
  ℕ, List, Bool, ◌&&◌, Option, none, some, ltb, ◌==◌, if◌then◌else◌, set, not, ◌||◌,
}
use tag_testting.Frame.Bytes.{byte, put_u16, get_u16}

-- The `errno` values that the module returns, negated in C.
pub data Errno : Type 0 where
  einval emsgsize ebadmsg : Errno

-- A result: what was produced, or a negative `errno`.
pub data Result {ℓ} (A : Type ℓ) : Type ℓ where
  ok : A → Result A
  err : Errno → Result A

infixl 5 ◌>>=◌
abbrev pub ◌>>=◌ {ℓ κ} : {A : Type ℓ} {B : Type κ} → Result A → (A → Result B) → Result B
ok a >>= f = f a
err e >>= f = err e

-- A built frame: the buffer with the bytes written, and the number of bytes returned.
abbrev pub Built : Type 0
Built = Result (List ℕ × ℕ)

-- The message types, `UWB_FRAME_TYPE_*`.
abbrev pub type_disc : ℕ
type_disc = 0xe2

abbrev pub type_mpol : ℕ
type_mpol = 0xe3

abbrev pub type_resp : ℕ
type_resp = 0xe4

abbrev pub type_beacon : ℕ
type_beacon = 0xe5

abbrev pub type_join : ℕ
type_join = 0xe6

abbrev pub type_grant : ℕ
type_grant = 0xe7

abbrev pub type_keepalive : ℕ
type_keepalive = 0xe8

abbrev pub type_release : ℕ
type_release = 0xe9

abbrev pub type_pos : ℕ
type_pos = 0xea

abbrev pub type_alert : ℕ
type_alert = 0xeb

abbrev pub addr_gateway : ℕ
addr_gateway = 0

abbrev pub addr_unassoc : ℕ
addr_unassoc = 0xfffe

abbrev pub addr_bcast : ℕ
addr_bcast = 0xffff

abbrev pub hdr_len : ℕ
hdr_len = 10

abbrev pub max_len : ℕ
max_len = 37

-- The ten header bytes.
abbrev pub hdr_bytes : List ℕ → ℕ → ℕ → ℕ → List ℕ
hdr_bytes buf dest src ty =
    set
      (put_u16 (put_u16 (set (set (set (set (set buf 0 0x41) 1 0x88) 2 0) 3 0xca) 4 0xde) 5 dest) 7
        src)
      9 ty

-- `write_hdr`; `none` is a null buffer
unfoldable pub write_hdr : Option (List ℕ) → ℕ → ℕ → ℕ → ℕ → ℕ → Result (List ℕ)
write_hdr none buf_len need dest src ty = err einval
write_hdr (some buf) buf_len need dest src ty =
    if ltb buf_len need then err emsgsize else ok (hdr_bytes buf dest src ty)

-- `uwb_frame_is_valid`
unfoldable pub is_valid : List ℕ → ℕ → Bool
is_valid buf len =
    not (ltb len hdr_len || ltb max_len len)
    && byte buf 0 == 0x41
    && byte buf 1 == 0x88
    && byte buf 3 == 0xca
    && byte buf 4 == 0xde

-- `uwb_frame_get_src_addr`
unfoldable pub get_src_addr : List ℕ → ℕ
get_src_addr buf = get_u16 buf 7

-- `uwb_frame_get_dest_addr`
unfoldable pub get_dest_addr : List ℕ → ℕ
get_dest_addr buf = get_u16 buf 5

-- `uwb_frame_get_seq_num`
unfoldable pub get_seq_num : List ℕ → ℕ
get_seq_num buf = byte buf 2

-- `uwb_frame_set_seq_num`
unfoldable pub set_seq_num : List ℕ → ℕ → List ℕ
set_seq_num buf seq = set buf 2 seq
