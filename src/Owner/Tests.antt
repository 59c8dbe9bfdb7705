-- ===== src/Owner/Tests.antt =====
-- The theorems on src/uwb_radio_owner.c on one run.
use tag_testting.Common.{true, false, ◌≡◌, ◌⊎◌, refl}
use tag_testting.Owner.{
  idle, requested, handed, refused, granted, kept, returned, request_enter, request_resume, release,
  yield_enter, yield_resume,
}
use tag_testting.Owner.System.{waiting, holding, away, parked, boot, Reach, Step, start, later}
use tag_testting.Owner.System
use tag_testting.Owner.Safety.{mutual_exclusion, runner_returns, timeout_withdraws}

abbrev asked : System.System
asked = record {
  owner = requested;
  claimant = waiting;
  runner = System.driving;
  claimant_woken = false;
  runner_woken = false;
}

abbrev given : System.System
given = record {
  owner = handed;
  claimant = waiting;
  runner = parked;
  claimant_woken = true;
  runner_woken = false;
}

abbrev claimed : System.System
claimed = record {
  owner = handed;
  claimant = holding;
  runner = parked;
  claimant_woken = false;
  runner_woken = false;
}

reach_asked : Reach asked
unfolding request_enter
reach_asked = later start (Step.request refl)

reach_given : Reach given
unfolding yield_enter
reach_given = later reach_asked (Step.yield refl)

reach_claimed : Reach claimed
unfolding request_resume
reach_claimed = later reach_given (Step.resume false refl)

mutual_exclusion_example : (claimed.runner ≡ parked) × (claimed.owner ≡ handed)
mutual_exclusion_example = mutual_exclusion reach_claimed refl

runner_returns_example :
    ((false ≡ true) × (yield_resume handed ≡ returned))
    ⊎ ((handed ≡ handed)
        × (holding ≡ waiting)
        × (false ≡ true)
        × (request_resume true handed ≡ (handed, granted))
        × (request_resume false handed ≡ (handed, granted)))
    ⊎ ((handed ≡ handed)
        × (holding ≡ holding)
        × (release handed ≡ (idle, true))
        × (yield_resume (release handed).0 ≡ returned))
runner_returns_example = runner_returns reach_claimed refl

timeout_withdraws_example :
    (request_resume true requested ≡ (idle, refused)) × (yield_enter idle ≡ (idle, kept, false))
    ⊎ (asked.runner ≡ parked) × (request_resume true requested ≡ (handed, granted))
timeout_withdraws_example = timeout_withdraws reach_asked refl
