-- ===== src/Scheduler/Tables.antt =====
-- The events of src/modules/scheduler.cpp and the tables that the schedulers run.
use obc.Common.{ℕ, List, [], ◌∷◌, ◌-◌, ◌^◌, Bool, true, false, Option, none, some}

pub data EventType : Type 0 where
  nop end lcl_reset gpio_set gpio_clear calibration : EventType
  enable_disable_camera toggle_camera set_telemetry_level : EventType

pub record Event : Type 0 where
  pub timestamp_msec : ℕ
  pub type : EventType
  pub param : ℕ
  pub flags : ℕ

abbrev pub event : ℕ → EventType → ℕ → Event
event t type param = record { timestamp_msec = t; type = type; param = param; flags = 0 }

-- `NO_MORE_EVENTS`.
abbrev pub no_more_events : Event
no_more_events = event (2 ^ 32 - 1) end 0

pub data TableName : Type 0 where
  relative_to_soe relative_to_sods relative_to_liftoff : TableName

-- The parameters are `lcl_t`, `telemetry_level_t` and `calibration_procedure_t` values.
abbrev pub table : TableName → List Event
table relative_to_soe =
    event 0 lcl_reset 0
    ∷ event 0 lcl_reset 2
    ∷ event 0 lcl_reset 3
    ∷ event 0 lcl_reset 4
    ∷ event 0 set_telemetry_level 0
    ∷ event 1000 lcl_reset 1
    ∷ record { timestamp_msec = 15000; type = calibration; param = 1; flags = 1 }
    ∷ event 30000 lcl_reset 5
    ∷ no_more_events
    ∷ []
table relative_to_sods = event 0 set_telemetry_level 0 ∷ no_more_events ∷ []
table relative_to_liftoff = event 0 set_telemetry_level 0 ∷ no_more_events ∷ []

same_name : TableName → TableName → Bool
same_name relative_to_soe relative_to_soe = true
same_name relative_to_sods relative_to_sods = true
same_name relative_to_liftoff relative_to_liftoff = true
same_name _ _ = false

-- Comparison of two pointers to tables.
unfoldable pub same_table : Option TableName → Option TableName → Bool
unfolding same_name
same_table none none = true
same_table (some a) (some b) = same_name a b
same_table _ _ = false
