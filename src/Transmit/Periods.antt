-- ===== src/Transmit/Periods.antt =====
-- The periodic tasks of src/modules/telem.cpp over many iterations.
use obc.Common.{
  ℕ, zero, suc, ◌+◌, ◌*◌, ◌^◌, ◌⊎◌, inl, inr, ◌<◌, ◌≡◌, bit, if◌then◌else◌, map, List, [], ◌∷◌,
  Bool, true, false, arith, All,
}
use obc.Transmit.{
  Sender, Task, run_task, run_single_iteration, sends_clock_status, send_clock_status_soon,
}

-- How often a task is called in `k` iterations, and the task afterwards.
abbrev pub run_times : ℕ → Task → ℕ × Task
run_times zero t = (0, t)
run_times (suc k) t = let r = run_task t in let rest = run_times k r.1 in (bit r.0 + rest.0, rest.1)

distribute : (m p : ℕ) → (1 + m) * p ≡ p + m * p
distribute m p = omega arith

run_task-cases :
    (t : Task)
    → t.counter < t.period
    → t.period < 2 ^ 16
    → let r = run_task t in
      ((r.0 ≡ true) × (t.period ≡ t.counter + 1) × ((r.1).counter ≡ 0) × ((r.1).period ≡ t.period))
      ⊎ ((r.0 ≡ false)
          × (t.counter + 1 < t.period)
          × ((r.1).counter ≡ t.counter + 1)
          × ((r.1).period ≡ t.period))
unfolding run_task
run_task-cases t h l = ground arith

-- In any number of iterations a task whose counter is below its period is called once for each full
-- period of iterations, those that its counter had counted before included: the calls times the
-- period and the counter that is left are the counter before and the iterations, and the counter
-- is again below the period.
pub run_times-period :
    (k : ℕ) (t : Task)
    → t.counter < t.period
    → t.period < 2 ^ 16
    → let r = run_times k t in
      (r.0 * t.period + (r.1).counter ≡ t.counter + k) × ((r.1).counter < t.period)
run_times-period zero t h l = (omega arith, h)
run_times-period (suc k) t h l =
    let t' = (run_task t).1 in
    let m = (run_times k t').0 in
    elim (run_task-cases t h l) [
      | inl c ↦
          let later = run_times-period k t' (omega (arith, c.2, c.3, h)) (omega (arith, c.3, l)) in
          ground (arith, c, later, distribute m t.period)
      | inr c ↦
          let later =
            run_times-period k t' (omega (arith, c.1, c.2, c.3)) (omega (arith, c.3, l)) in
          ground (arith, c, later)
    ]

abbrev pub has_clock_status : List Sender → Bool
has_clock_status [] = false
has_clock_status (f ∷ fs) = if sends_clock_status f then true else has_clock_status fs

-- After `sendClockStatusSoon` the next iteration calls the functions of the table that send the
-- status of the clocks, for any counters, where the table has one and its periods are below 65535.
pub send_clock_status_soon-next :
    (ts : List Task)
    → All (λ t. t.period + 1 < 2 ^ 16) ts
    → has_clock_status (map (λ t. t.func) ts) ≡ true
    → has_clock_status (run_single_iteration (send_clock_status_soon ts)).0 ≡ true
unfolding run_single_iteration send_clock_status_soon
send_clock_status_soon-next [] h c = c
send_clock_status_soon-next (t ∷ ts) h c =
    ground (arith, h.0, c, send_clock_status_soon-next ts h.1)
