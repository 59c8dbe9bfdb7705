-- ===== src/Alert/Message.antt =====
-- `struct uwb_alert` of src/uwb_frame_802_15_4z.h and the constants of its fields.
use tag_testting.Common.{ℕ, List}

pub record Alert : Type 0 where
  pub state : ℕ
  pub epoch : ℕ
  pub repeat_seq : ℕ
  pub sender_hop : ℕ
  pub ttl : ℕ
  pub orig_eui : List ℕ
  pub orig_addr : ℕ
  pub batt_soc : ℕ
  pub last_x : ℕ  -- the bits of a `float`
  pub last_y : ℕ  -- the bits of a `float`

abbrev pub state_cancel : ℕ
state_cancel = 0

abbrev pub state_help : ℕ
state_help = 1

abbrev pub hop_unknown : ℕ
hop_unknown = 0xff

abbrev pub ttl_init : ℕ
ttl_init = 6
