-- ===== src/Rxsm/Tests.antt =====
-- Runs of the voters and of the state manager.
use obc.Common.{◌+◌, bit, leb, [], ◌∷◌, ◌++◌, true, false, ◌≡◌}
use obc.Scheduler.{Scheduler, SchedulerList}
use obc.Scheduler
use obc.Rxsm.Voter
use obc.Rxsm.Voter.Majority.{get-majority}
use obc.Rxsm.Manager.{StateManager, Readings, update}
use obc.Rxsm.Manager.Follow.{follow, update-follow}

get-majority_example :
    Voter.get (Voter.feed_all 9 ((true ∷ false ∷ []) ++ true ∷ true ∷ false ∷ false ∷ true ∷ []))
    ≡ leb 3 (bit true + bit true + bit false + bit false + bit true)
get-majority_example = get-majority 9 (true ∷ false ∷ []) true true false false true

-- The next high value of LO is the third of five.
abbrev before_liftoff : StateManager
before_liftoff = record { sods = 31; soe = 31; lo = 3; last_lo = 0; last_sods = 100; last_soe = 90 }

abbrev schedulers : SchedulerList
schedulers = record { sods = Scheduler.new; soe = Scheduler.new; lo = Scheduler.new }

abbrev readings : Readings
readings = record {
  lo = 5000;
  sods = 5001;
  soe = 5002;
  lo_clock = 5003;
  sods_clock = 5004;
  soe_clock = 5005;
}

update-follow_example :
    let (m', l') = update before_liftoff schedulers true true true readings in
    (m'.sods ≡ Voter.feed 31 true)
    × (m'.soe ≡ Voter.feed 31 true)
    × (m'.lo ≡ Voter.feed 3 true)
    × (l'.sods ≡ follow (Voter.get 31) (Voter.get m'.sods) Scheduler.new 5004)
    × (l'.soe ≡ follow (Voter.get 31) (Voter.get m'.soe) Scheduler.new 5005)
    × (l'.lo ≡ follow (Voter.get 3) (Voter.get m'.lo) Scheduler.new 5003)
update-follow_example = update-follow before_liftoff schedulers true true true readings
