-- ===== src/Scheduler/Tests.antt =====
-- Runs of the scheduler with the table relative to SOE.
use obc.Common.{◌+◌, ◌≤◌, ◌<◌, length, drop, ◌++◌, some, true, ◌≡◌, refl, arith}
use obc.Scheduler.{Scheduler, get_elapsed_time_msec, execute_pending_events}
use obc.Scheduler.Tables.{relative_to_soe, table}
use obc.Scheduler.Once.{ripe, execute_pending_events_twice, execute_pending_events-ripe}

-- Started at 1000, with the first five events executed.
abbrev running : Scheduler
running = record {
  started_at = 1000;
  stopped_at = 0;
  is_clock_running = true;
  events = some relative_to_soe;
  next_event_index = 5;
}

two_rounds : get_elapsed_time_msec running 0 1500 ≤ get_elapsed_time_msec running 0 17000
unfolding get_elapsed_time_msec
two_rounds = omega arith

execute_pending_events_twice_example :
    let (first, s₁) = execute_pending_events running 1500 in
    let (second, s₂) = execute_pending_events s₁ 17000 in
    execute_pending_events running 17000 ≡ (first ++ second, s₂)
execute_pending_events_twice_example = execute_pending_events_twice running 1500 17000 two_rounds

execute_pending_events-ripe_example :
    let (executed, s') = execute_pending_events running 17000 in
    (executed ≡ ripe (get_elapsed_time_msec running 0 17000) (drop 5 (table relative_to_soe)))
    × (s'.next_event_index ≡ 5 + length executed)
    × (s'.next_event_index < 9)
execute_pending_events-ripe_example =
    execute_pending_events-ripe running relative_to_soe 17000 refl refl (omega arith)
