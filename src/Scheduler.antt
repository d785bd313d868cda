-- ===== src/Scheduler.antt =====
-- src/modules/scheduler.h and scheduler.cpp: the three event schedulers and their tables.
-- `now()` is a reading of the boot clock that is handed to the operation. An operation reads the
-- clock at most once, as `restart` does: in `reset` if the clock runs, else in `start`.
pub mod Tables
pub mod Clock
pub mod Once
pub mod Global
pub mod Idle
mod Tests
use obc.Common.{
  ℕ, ◌+◌, ◌-◌, bit_and, List, [], ◌∷◌, drop, length, ltb, ◌==◌, ◌||◌, not, if◌then◌else◌, Bool,
  true, false, Option, none, some,
}
use obc.Common.Words.{sub32}
use obc.Scheduler.Tables.{
  Event, EventType, nop, end, lcl_reset, gpio_set, gpio_clear, calibration, enable_disable_camera,
  toggle_camera, set_telemetry_level, TableName, table, same_table,
}
use mathlib.Core.List.{filter_map}

-- `class Scheduler`. The pointer to the events names one of the static tables.
pub record Scheduler : Type 0 where
  pub started_at : ℕ
  pub stopped_at : ℕ
  pub is_clock_running : Bool
  pub events : Option TableName
  pub next_event_index : ℕ

unfoldable pub get_elapsed_time_msec : Scheduler → ℕ → ℕ → ℕ
get_elapsed_time_msec s now reading =
    if s.is_clock_running
    then sub32 (if now == 0 then reading else now) s.started_at
    else sub32 s.stopped_at s.started_at

unfoldable pub reset : Scheduler → ℕ → Scheduler
reset s reading = record s {
  started_at = if s.is_clock_running then reading else 0;
  stopped_at = 0;
  next_event_index = 0;
}

unfoldable pub start : Scheduler → ℕ → Scheduler
unfolding get_elapsed_time_msec
start s reading = if s.is_clock_running then s else record s {
  started_at = sub32 reading (get_elapsed_time_msec s 0 reading);
  stopped_at = 0;
  is_clock_running = true;
}

unfoldable pub stop : Scheduler → ℕ → Scheduler
stop s reading =
    if s.is_clock_running then record s { stopped_at = reading; is_clock_running = false } else s

unfoldable pub restart : Scheduler → ℕ → Scheduler
unfolding reset start
restart s reading = start (reset s reading) reading

-- `Scheduler()`.
unfoldable pub new : Scheduler
new = record {
  started_at = 0;
  stopped_at = 0;
  is_clock_running = false;
  events = none;
  next_event_index = 0;
}

unfoldable pub set_events : Scheduler → Option TableName → ℕ → Scheduler
unfolding reset stop
set_events s events reading =
    if same_table events s.events
    then s
    else record (reset (stop s reading) reading) { events = events }

unfoldable pub clear_events : Scheduler → ℕ → Scheduler
unfolding set_events
clear_events s reading = set_events s none reading

-- What `executeEvent` asks of the other modules.
pub data Action : Type 0 where
  reset_lcl : ℕ → Action
  write_pin : ℕ → Bool → Action
  perform_calibration : ℕ → Action
  enable_camera : Bool → Action
  camera_pulse : Action
  telemetry_level : ℕ → Action

abbrev pub num_lcls : ℕ
num_lcls = 6

abbrev pub num_gpio_pins : ℕ
num_gpio_pins = 17

abbrev pub num_calibration_procedures : ℕ
num_calibration_procedures = 3

-- The `switch` of `executeEvent`; the last clause is `default`.
unfoldable pub action_of : EventType → ℕ → Option Action
action_of lcl_reset param = if ltb param num_lcls then some (reset_lcl param) else none
action_of gpio_set param = if ltb param num_gpio_pins then some (write_pin param true) else none
action_of gpio_clear param = if ltb param num_gpio_pins then some (write_pin param false) else none
action_of calibration param =
    if ltb param num_calibration_procedures then some (perform_calibration param) else none
action_of enable_disable_camera param = some (enable_camera (not (param == 0)))
action_of toggle_camera param = some camera_pulse
action_of set_telemetry_level param = some (telemetry_level param)
action_of _ param = none

-- `booted` is the answer of `wasBootedAfterLiftoff()`.
unfoldable pub execute_event : Bool → Event → Option Action
unfolding action_of
execute_event booted e =
    let action = action_of e.type e.param in
    if bit_and e.flags 1 == 0 then action else (if booted then none else action)

abbrev pub is_end : EventType → Bool
is_end end = true
is_end _ = false

-- The loop of `executePendingEvents`, over the table from the next event on: the events that it
-- executes. A table that ran out without an end event would be read past its end.
unfoldable pub due : ℕ → List Event → List Event
due elapsed [] = []
due elapsed (e ∷ es) =
    let rest = due elapsed es in
    if is_end e.type || ltb elapsed e.timestamp_msec then [] else e ∷ rest

unfoldable pub events_left : Scheduler → List Event
events_left s = elim s.events [ none ↦ [] | some name ↦ drop s.next_event_index (table name) ]

-- The events that are executed, and the scheduler afterwards.
unfoldable pub execute_pending_events : Scheduler → ℕ → List Event × Scheduler
execute_pending_events s reading =
    if s.is_clock_running
    then (let executed = due (get_elapsed_time_msec s 0 reading) (events_left s) in
        (executed, record s { next_event_index = s.next_event_index + length executed }))
    else ([], s)

-- `update` asks this of the modules, in this order.
unfoldable pub actions : Bool → List Event → List Action
unfolding execute_event
actions booted = filter_map (execute_event booted)

-- The static `schedulerList`.
pub record SchedulerList : Type 0 where
  pub sods : Scheduler
  pub soe : Scheduler
  pub lo : Scheduler
