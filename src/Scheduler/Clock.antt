-- ===== src/Scheduler/Clock.antt =====
-- The elapsed time of a scheduler of src/modules/scheduler.cpp.
use obc.Common.{ℕ, ◌+◌, true, ◌≡◌, arith}
use obc.Common.Words.{IsU32, u32, sub32}
use obc.Scheduler.{Scheduler, get_elapsed_time_msec, start, stop, restart}

-- After a restart at a 32-bit time the clock runs, its elapsed time is what has passed since,
-- whatever it did before, and the table starts over.
pub restart_clock :
    (s : Scheduler) (t₀ t : ℕ)
    → IsU32 t₀
    → IsU32 t
    → let s' = restart s t₀ in
      (s'.is_clock_running ≡ true)
      × (s'.next_event_index ≡ 0)
      × (get_elapsed_time_msec s' 0 t ≡ sub32 t t₀)
unfolding restart get_elapsed_time_msec
restart_clock s t₀ t h₀ h = ground arith

-- A stopped clock keeps its time: after a stop at `t₁` and a start at `t₂` the elapsed time at `t₃`
-- is that at the stop and what has passed since the start, as 32-bit words; while the clock stands,
-- it is that at the stop.
pub stop-start_clock :
    (s : Scheduler) (t₁ t₂ t₃ : ℕ)
    → s.is_clock_running ≡ true
    → IsU32 s.started_at
    → IsU32 t₁
    → IsU32 t₂
    → IsU32 t₃
    → let before = get_elapsed_time_msec s 0 t₁ in
      (get_elapsed_time_msec (stop s t₁) 0 t₃ ≡ before)
      × (get_elapsed_time_msec (start (stop s t₁) t₂) 0 t₃ ≡ u32 (before + sub32 t₃ t₂))
unfolding start stop get_elapsed_time_msec
stop-start_clock s t₁ t₂ t₃ r h₀ h₁ h₂ h₃ = ground arith
