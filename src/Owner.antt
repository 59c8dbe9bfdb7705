-- ===== src/Owner.antt =====
-- src/uwb_radio_owner.c: the handover of the radio between the runner and one claimant. Each
-- function below is one stretch of the C code under the mutex, from taking it, or from the return
-- of a wait on the condition variable, to giving it up.
pub mod System
pub mod Safety
mod Tests
use tag_testting.Common.{Bool, true, false}

-- `enum owner_state`
pub data OwnerState : Type 0 where
  idle requested handed : OwnerState

-- How a stretch of `uwb_radio_request` ends: it returns false or true, or waits.
pub data Request : Type 0 where
  refused granted waits : Request

-- `uwb_radio_request` up to its return or its first wait.
unfoldable pub request_enter : Bool → OwnerState → OwnerState × Request
request_enter true idle = (handed, granted)
request_enter false idle = (requested, waits)
request_enter unmanaged requested = (requested, refused)
request_enter unmanaged handed = (handed, refused)

-- `uwb_radio_request` from the return of a wait, which may have timed out.
unfoldable pub request_resume : Bool → OwnerState → OwnerState × Request
request_resume true requested = (idle, refused)
request_resume false requested = (requested, waits)
request_resume timed_out handed = (handed, granted)
request_resume timed_out idle = (idle, refused)

-- `uwb_radio_release`, and whether it broadcasts on the condition variable
unfoldable pub release : OwnerState → OwnerState × Bool
release handed = (idle, true)
release s = (s, false)

abbrev pub is_requested : OwnerState → Bool
is_requested requested = true
is_requested _ = false

-- `uwb_radio_request_pending`
unfoldable pub request_pending : OwnerState → Bool
request_pending s = is_requested s

-- How a stretch of `uwb_radio_yield` ends: it returns false or true, or waits.
pub data Yield : Type 0 where
  kept returned parks : Yield

-- `uwb_radio_yield` up to its return or its first wait, and whether it broadcasts.
unfoldable pub yield_enter : OwnerState → OwnerState × Yield × Bool
yield_enter requested = (handed, parks, true)
yield_enter s = (s, kept, false)

-- `uwb_radio_yield` from the return of a wait.
unfoldable pub yield_resume : OwnerState → Yield
yield_resume handed = parks
yield_resume _ = returned
