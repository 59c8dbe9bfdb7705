-- ===== src/Owner/System.antt =====
-- The runner and the claimants over one owner state, interleaved in any order. A step is a stretch
-- of code under the mutex. A broadcast wakes the threads that wait at that moment; a wait may also
-- return without one.
use tag_testting.Common.{Bool, true, false, ◌≡◌, ◌≢◌, ◌&&◌, ◌||◌}
use tag_testting.Owner.{
  OwnerState, idle, Request, refused, granted, waits, request_enter, request_resume, release, Yield,
  kept, returned, parks, yield_enter, yield_resume,
}

-- Where the claimant stands: outside, in its wait, or with the radio.
pub data Claimant : Type 0 where
  away waiting holding : Claimant

-- Where the runner stands: driving the radio, or in the wait of its yield.
pub data Runner : Type 0 where
  driving parked : Runner

pub record System : Type 0 where
  pub owner : OwnerState
  pub claimant : Claimant
  pub runner : Runner
  pub claimant_woken : Bool
  pub runner_woken : Bool

abbrev pub is_waiting : Claimant → Bool
is_waiting waiting = true
is_waiting _ = false

abbrev pub is_parked : Runner → Bool
is_parked parked = true
is_parked _ = false

-- `k_condvar_broadcast(&cv)`, if the stretch makes that call: who waits is woken.
abbrev pub broadcast : Bool → System → System
broadcast calls s = record s {
  claimant_woken = s.claimant_woken || calls && is_waiting s.claimant;
  runner_woken = s.runner_woken || calls && is_parked s.runner;
}

-- The claimant's place after a stretch of its request.
abbrev pub after_request : Request → Claimant
after_request refused = away
after_request granted = holding
after_request waits = waiting

-- The runner's place after a stretch of its yield.
abbrev pub after_yield : Yield → Runner
after_yield kept = driving
after_yield returned = driving
after_yield parks = parked

-- The image with a runner, `unmanaged` unset.
pub data Step (s : System) : System → Type 0 where
  request :
      s.claimant ≡ away
      → Step s (record s {
        owner = (request_enter false s.owner).0;
        claimant = after_request (request_enter false s.owner).1;
        claimant_woken = false;
      })
  intrude : s.claimant ≢ away → Step s (record s { owner = (request_enter false s.owner).0 })
  resume :
      (timed_out : Bool)
      → s.claimant ≡ waiting
      → Step s (record s {
        owner = (request_resume timed_out s.owner).0;
        claimant = after_request (request_resume timed_out s.owner).1;
        claimant_woken = false;
      })
  give_back :
      s.claimant ≡ holding
      → Step s (record (broadcast (release s.owner).1 s) {
        owner = (release s.owner).0;
        claimant = away;
      })
  stray_release :
      s.claimant ≡ away
      → Step s (record (broadcast (release s.owner).1 s) { owner = (release s.owner).0 })
  yield :
      s.runner ≡ driving
      → Step s (record (broadcast (yield_enter s.owner).2 s) {
        owner = (yield_enter s.owner).0;
        runner = after_yield (yield_enter s.owner).1;
        runner_woken = false;
      })
  wake :
      s.runner ≡ parked
      → Step s (record s { runner = after_yield (yield_resume s.owner); runner_woken = false })

-- The static initial state.
abbrev pub boot : System
boot = record {
  owner = idle;
  claimant = away;
  runner = driving;
  claimant_woken = false;
  runner_woken = false;
}

pub data Reach : System → Type 0 where
  start : Reach boot
  later : {s t : System} → Reach s → Step s t → Reach t
