-- ===== src/Supervisor/Tests.antt =====
-- Runs of the supervisor with concrete tasks and queues.
use obc.Common.{◌+◌, ◌≡◌, ◌++◌, refl, replicate, List, [], ◌∷◌, All, true, some, arith}
use obc.Common.Words.{u16}
use obc.Supervisor.{
  TaskStats, init, Verdict, judge, register_task, is_task_valid, invalid_token, cleared,
}
use obc.Supervisor.Queues.{QueueStats, cleared_queue, register_queue, is_queue_valid}
use obc.Supervisor.Window.{seconds, seconds-judge}
use obc.Supervisor.Slots.{RegistersFrom, register_task-RegistersFrom, register_queue_fills}
use obc.Supervisor.Sound.{Action, run, IsSound, run-IsSound}

abbrev telemetry : TaskStats
telemetry = record {
  name = some (0x74 ∷ []);
  enabled = true;
  interval_sec = 3;
  min_nudges = 4;
  max_nudges = 9;
  nudges = 0;
  time_until_next_check_sec = 3;
}

telemetry_valid : is_task_valid telemetry ≡ true
unfolding is_task_valid
telemetry_valid = refl

seconds-judge_example : seconds (2 ∷ 0 ∷ 1 ∷ []) telemetry ≡ (
  replicate 2 Verdict.fine ++ (judge (record telemetry { nudges = u16 (0 + 3) }) ∷ []),
  record telemetry { time_until_next_check_sec = 3; nudges = 0 },
)
seconds-judge_example =
    seconds-judge 2 (2 ∷ 0 ∷ 1 ∷ []) telemetry telemetry_valid refl (omega arith) refl (omega arith)
      refl

register_task-RegistersFrom_example :
    RegistersFrom
      (0x67 ∷ [])
      0
      (telemetry ∷ cleared ∷ [])
      (register_task (some (0x67 ∷ [])) (telemetry ∷ cleared ∷ []))
register_task-RegistersFrom_example =
    register_task-RegistersFrom (0x67 ∷ []) (telemetry ∷ cleared ∷ [])

abbrev first_queue : QueueStats
first_queue = record { name = some (0x61 ∷ []); queue = some 4; high_water_mark = 2 }

register_queue_fills_example :
    let r = register_queue (some (0x62 ∷ [])) (some 5) (first_queue ∷ cleared_queue ∷ []) in
    (r.0 ≡ invalid_token)
    × All (λ q. is_queue_valid q ≡ true) r.1
    × (register_queue (some (0x63 ∷ [])) (some 6) r.1 ≡ (invalid_token, r.1))
register_queue_fills_example =
    register_queue_fills (0x62 ∷ []) (0x63 ∷ []) 5 6 (first_queue ∷ cleared_queue ∷ [])

abbrev history : List Action
history =
    Action.register (some (0x74 ∷ []))
    ∷ Action.set_interval 5 (omega arith) 0
    ∷ Action.nudge 0
    ∷ Action.check
    ∷ []

run-IsSound_example : All IsSound (run init history)
run-IsSound_example = run-IsSound history
