-- ===== src/Rxsm/Manager/Follow.antt =====
-- The schedulers that src/modules/rxsm.cpp starts and stops.
use obc.Common.{ℕ, ◌&&◌, not, if◌then◌else◌, Bool, true, false, ◌≡◌, arith}
use obc.Rxsm.Voter
use obc.Scheduler.{Scheduler, SchedulerList, restart, stop}
use obc.Rxsm.Manager.{StateManager, Readings, update_signals, update}

-- What a scheduler becomes when the vote of its signal goes from one value to another.
abbrev pub follow : Bool → Bool → Scheduler → ℕ → Scheduler
follow false true s t = restart s t
follow true false s t = stop s t
follow _ _ s t = s

-- Each scheduler follows the vote of its own signal alone: it is restarted when the vote rises,
-- stopped when it falls, and left alone otherwise; the histories are fed with the three values.
pub update-follow :
    (m : StateManager) (l : SchedulerList) (sods soe lo : Bool) (t : Readings)
    → let (m', l') = update m l sods soe lo t in
      (m'.sods ≡ Voter.feed m.sods sods)
      × (m'.soe ≡ Voter.feed m.soe soe)
      × (m'.lo ≡ Voter.feed m.lo lo)
      × (l'.sods ≡ follow (Voter.get m.sods) (Voter.get m'.sods) l.sods t.sods_clock)
      × (l'.soe ≡ follow (Voter.get m.soe) (Voter.get m'.soe) l.soe t.soe_clock)
      × (l'.lo ≡ follow (Voter.get m.lo) (Voter.get m'.lo) l.lo t.lo_clock)
unfolding update update_signals Voter.feed_and_check
update-follow m l sods soe lo t = ground arith

-- The time of the last rising edge of LO is the reading made at that edge, and stays otherwise.
pub last_lo-update :
    (m : StateManager) (l : SchedulerList) (sods soe lo : Bool) (t : Readings)
    → let m' = (update m l sods soe lo t).0 in
      m'.last_lo ≡ (if not (Voter.get m.lo) && Voter.get m'.lo then t.lo else m.last_lo)
unfolding update update_signals Voter.feed_and_check
last_lo-update m l sods soe lo t = ground arith
