-- ===== src/Scheduler/Global.antt =====
-- src/modules/scheduler.cpp: the functions on the three static schedulers.
use obc.Common.{ℕ, ◌==◌, if◌then◌else◌, List, ◌++◌, Bool, Option, none, some}
use obc.Scheduler.{
  Scheduler, SchedulerList, set_events, clear_events, execute_pending_events, Action, actions,
}
use obc.Scheduler.Tables.{relative_to_soe, relative_to_sods, relative_to_liftoff}

unfoldable pub init : SchedulerList → ℕ → SchedulerList
init l reading = record {
  sods = set_events l.sods (some relative_to_sods) reading;
  soe = set_events l.soe (some relative_to_soe) reading;
  lo = set_events l.lo (some relative_to_liftoff) reading;
}

unfoldable pub destroy : SchedulerList → ℕ → SchedulerList
destroy l reading = record {
  sods = clear_events l.sods reading;
  soe = clear_events l.soe reading;
  lo = clear_events l.lo reading;
}

-- The mission clock is tied to SOE.
unfoldable pub get_mission_clock : SchedulerList → Scheduler
get_mission_clock l = l.soe

-- `getSchedulerForRXSMSignal`; the signals are 1, 2 and 4.
unfoldable pub get_scheduler_for_rxsm_signal : SchedulerList → ℕ → Option Scheduler
get_scheduler_for_rxsm_signal l signal =
    if signal == 2
    then some l.soe
    else (if signal == 1 then some l.sods else (if signal == 4 then some l.lo else none))

-- `update`: SOE, SODS, LO. The readings of the clock are those of the three schedulers, in order.
unfoldable pub update : Bool → SchedulerList → ℕ → ℕ → ℕ → List Action × SchedulerList
update booted l soe_clock sods_clock lo_clock =
    let (for_soe, soe') = execute_pending_events l.soe soe_clock in
    let (for_sods, sods') = execute_pending_events l.sods sods_clock in
    let (for_lo, lo') = execute_pending_events l.lo lo_clock in
    (
      actions booted for_soe ++ actions booted for_sods ++ actions booted for_lo,
      record { sods = sods'; soe = soe'; lo = lo' },
    )
