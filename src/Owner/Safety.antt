-- ===== src/Owner/Safety.antt =====
-- One thread at a time drives the radio, and neither waits for one that is gone.
use tag_testting.Common.{true, false, ◌≡◌, ◌≢◌, ◌⊎◌, arith}
use tag_testting.Owner.{
  idle, requested, handed, refused, granted, request_enter, request_resume, release, kept, returned,
  yield_enter, yield_resume,
}
use tag_testting.Owner.System.{
  away, waiting, holding, parked, System, Step, request, intrude, resume, give_back, stray_release,
  yield, wake, Reach, start, later,
}

-- What ties the owner state to the places of the two threads.
pub record Agrees (s : System) : Type 0 where
  pub idle_away : s.owner ≡ idle → s.claimant ≡ away
  pub requested_waiting : s.owner ≡ requested → s.claimant ≡ waiting
  pub handed_claimed : s.owner ≡ handed → s.claimant ≢ away
  pub handed_parked : s.owner ≡ handed → s.runner ≡ parked
  pub returned_woken : s.runner ≡ parked → s.owner ≢ handed → s.runner_woken ≡ true
  pub handed_woken : s.owner ≡ handed → s.claimant ≡ waiting → s.claimant_woken ≡ true

Step-Agrees : {s t : System} → Step s t → Agrees s → Agrees t
unfolding request_enter request_resume release yield_enter yield_resume
Step-Agrees (request h) a = ground arith
Step-Agrees (intrude h) a = ground arith
Step-Agrees (resume timed_out h) a = ground arith
Step-Agrees (give_back h) a = ground arith
Step-Agrees (stray_release h) a = ground arith
Step-Agrees (yield h) a = ground arith
Step-Agrees (wake h) a = ground arith

Reach-Agrees : {s : System} → Reach s → Agrees s
Reach-Agrees start = ground arith
Reach-Agrees (later r st) = Step-Agrees st (Reach-Agrees r)

-- In every reachable state the claimant holds the radio only while the runner is parked, and then
-- the owner state says so.
pub mutual_exclusion :
    {s : System} → Reach s → s.claimant ≡ holding → (s.runner ≡ parked) × (s.owner ≡ handed)
mutual_exclusion {s} r h = ground (arith, Reach-Agrees r)

-- In every reachable state a second request fails and a release without a claim does nothing:
-- neither changes the owner state.
contract_breaks_harmless :
    {s : System}
    → Reach s
    → (s.claimant ≢ away → request_enter false s.owner ≡ (s.owner, refused))
      × (s.claimant ≡ away → (release s.owner).0 ≡ s.owner)
unfolding request_enter release
contract_breaks_harmless {s} r = ground (arith, Reach-Agrees r)

-- No wake-up is lost: in every reachable state where the runner is parked, either the broadcast of a
-- release has woken it, and on its return from the wait it drives; or the claimant has been handed the
-- radio, and it either waits still, with the broadcast of the runner's yield behind it and the radio
-- granted on its return from the wait, or it holds the radio, and its release then broadcasts and
-- lets the runner drive.
pub runner_returns :
    {s : System}
    → Reach s
    → s.runner ≡ parked
    → ((s.runner_woken ≡ true) × (yield_resume s.owner ≡ returned))
      ⊎ ((s.owner ≡ handed)
          × (s.claimant ≡ waiting)
          × (s.claimant_woken ≡ true)
          × (request_resume true s.owner ≡ (s.owner, granted))
          × (request_resume false s.owner ≡ (s.owner, granted)))
      ⊎ ((s.owner ≡ handed)
          × (s.claimant ≡ holding)
          × (release s.owner ≡ (idle, true))
          × (yield_resume (release s.owner).0 ≡ returned))
unfolding yield_resume release request_resume
runner_returns {s} r h = ground (arith, Reach-Agrees r)

-- A claim that times out before the runner yields is withdrawn: the request fails, and the runner's
-- next yield hands nothing over.
pub timeout_withdraws :
    {s : System}
    → Reach s
    → s.claimant ≡ waiting
    → (request_resume true s.owner ≡ (idle, refused)) × (yield_enter idle ≡ (idle, kept, false))
      ⊎ (s.runner ≡ parked) × (request_resume true s.owner ≡ (handed, granted))
unfolding request_resume yield_enter
timeout_withdraws {s} r h = ground (arith, Reach-Agrees r)
