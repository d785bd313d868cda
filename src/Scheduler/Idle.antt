-- ===== src/Scheduler/Idle.antt =====
-- src/modules/scheduler.cpp at the start of a mission.
use obc.Common.{ℕ, [], ◌≡◌, refl, ◌∷◌, Bool, arith, ap}
use obc.Scheduler.{
  SchedulerList, Action, new, reset, stop, start, restart, set_events, execute_pending_events,
  get_elapsed_time_msec, actions, due, events_left, execute_event, action_of,
}
use obc.Scheduler.Tables.{relative_to_soe, same_table, table}
use mathlib.Core.List.{filter_map}
use obc.Common.Words.{sub32, IsU32}
use obc.Scheduler.Global.{init, update}

abbrev pub fresh : SchedulerList
fresh = record { sods = new; soe = new; lo = new }

-- After `init` of new schedulers, a round of `update`, at whatever times, executes nothing and
-- changes nothing.
pub update-init :
    (booted : Bool) (boot t₁ t₂ t₃ : ℕ)
    → update booted (init fresh boot) t₁ t₂ t₃ ≡ ([], init fresh boot)
unfolding update init set_events new reset stop same_table execute_pending_events actions filter_map
update-init booted boot t₁ t₂ t₃ = refl

-- A round at the very moment SOE restarts its scheduler, at a 32-bit time after `init`, resets
-- the four limiters 0, 2, 3 and 4 and sets the telemetry level, in this order, and does no more.
pub restart_soe_at_once :
    (boot t : ℕ) (booted : Bool)
    → IsU32 t
    → let s = restart (init fresh boot).soe t in
      actions booted (execute_pending_events s t).0 ≡ (
        Action.reset_lcl 0
        ∷ Action.reset_lcl 2
        ∷ Action.reset_lcl 3
        ∷ Action.reset_lcl 4
        ∷ Action.telemetry_level 0
        ∷ [])
unfolding init set_events new restart reset stop start same_table execute_pending_events actions
    get_elapsed_time_msec execute_event action_of due events_left filter_map
restart_soe_at_once boot t booted h =
    ap (λ n. actions booted (due n (table relative_to_soe))) at_zero
  where
    at_zero : sub32 t (sub32 t 0) ≡ 0
    at_zero = omega arith
