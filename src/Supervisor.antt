-- ===== src/Supervisor.antt =====
-- src/modules/supervisor.cpp: the tasks that report to the supervisor and the queues it watches.
pub mod Queues
pub mod Window
pub mod Slots
pub mod Sound
mod Tests
use obc.Common.{
  ℕ, zero, suc, ◌+◌, ◌-◌, ◌==◌, ◌&&◌, ◌||◌, not, if◌then◌else◌, ltb, leb, get_or, set, length,
  replicate, List, [], ◌∷◌, Bool, true, false, Option, none, some,
}
use obc.Common.Words.{u8, u16}

abbrev pub max_tasks : ℕ
max_tasks = 32

abbrev pub max_queues : ℕ
max_queues = 8

-- `INVALID_TOKEN` and `UNLIMITED_NUDGES`.
abbrev pub invalid_token : ℕ
invalid_token = 255

abbrev pub unlimited_nudges : ℕ
unlimited_nudges = 65535

-- `task_stats_t`; a name is its characters, and `none` a null pointer.
pub record TaskStats : Type 0 where
  pub name : Option (List ℕ)
  pub enabled : Bool
  pub interval_sec : ℕ
  pub min_nudges : ℕ
  pub max_nudges : ℕ
  pub nudges : ℕ
  pub time_until_next_check_sec : ℕ

-- A slot of zeros.
abbrev pub cleared : TaskStats
cleared = record {
  name = none;
  enabled = false;
  interval_sec = 0;
  min_nudges = 0;
  max_nudges = 0;
  nudges = 0;
  time_until_next_check_sec = 0;
}

-- `init` and `destroy`.
unfoldable pub init : List TaskStats
init = replicate max_tasks cleared

abbrev pub is_named : Option (List ℕ) → Bool
is_named none = false
is_named (some n) = true

unfoldable pub is_task_valid : TaskStats → Bool
is_task_valid t = is_named t.name && ltb 0 t.interval_sec

abbrev pub registered : List ℕ → TaskStats → TaskStats
registered name t = record t {
  name = some name;
  interval_sec = 1;
  time_until_next_check_sec = 1;
  min_nudges = 0;
  max_nudges = unlimited_nudges;
}

abbrev pub shifted : TaskStats → ℕ × List TaskStats → ℕ × List TaskStats
shifted t (token, ts) = (token, t ∷ ts)

-- The loop from the slot `i` on.
abbrev pub register_from : List ℕ → ℕ → List TaskStats → ℕ × List TaskStats
register_from name i [] = (invalid_token, [])
register_from name i (t ∷ ts) =
    let rest = register_from name (suc i) ts in
    if not (is_task_valid t) then (i, registered name t ∷ ts) else shifted t rest

abbrev pub register_named : Option (List ℕ) → List TaskStats → ℕ × List TaskStats
register_named none ts = (invalid_token, ts)
register_named (some name) ts = register_from name 0 ts

unfoldable pub register_task : Option (List ℕ) → List TaskStats → ℕ × List TaskStats
unfolding is_task_valid
register_task name ts = register_named name ts

-- Changes the slot of a token, if it has one.
unfoldable pub on_task : (TaskStats → TaskStats) → ℕ → List TaskStats → List TaskStats
on_task f token ts = if ltb token max_tasks then set ts token (f (get_or ts token cleared)) else ts

unfoldable pub unregister_task : ℕ → List TaskStats → List TaskStats
unfolding on_task
unregister_task token ts = on_task (λ t. cleared) token ts

abbrev pub disabled : TaskStats → TaskStats
disabled t = record t { nudges = 0; enabled = false }

unfoldable pub disable_task : ℕ → List TaskStats → List TaskStats
unfolding on_task
disable_task token ts = on_task disabled token ts

abbrev pub nudged : TaskStats → TaskStats
nudged t = record t { nudges = u16 (t.nudges + 1); enabled = true }

unfoldable pub nudge_task : ℕ → List TaskStats → List TaskStats
unfolding on_task
nudge_task token ts = on_task nudged token ts

abbrev pub with_interval : ℕ → TaskStats → TaskStats
with_interval interval_sec t =
    if leb 1 interval_sec
    then record t {
      interval_sec = interval_sec;
      time_until_next_check_sec =
          if ltb interval_sec t.time_until_next_check_sec
          then interval_sec
          else t.time_until_next_check_sec;
    }
    else t

unfoldable pub in_seconds : ℕ → ℕ → List TaskStats → List TaskStats
unfolding on_task
in_seconds interval_sec token ts = on_task (with_interval interval_sec) token ts

-- On the board; the build for POSIX scales `min` down.
abbrev pub expecting : ℕ → ℕ → TaskStats → TaskStats
expecting min max t = record t { min_nudges = min; max_nudges = max }

unfoldable pub expect : ℕ → ℕ → ℕ → List TaskStats → List TaskStats
unfolding on_task
expect min max token ts = on_task (expecting min max) token ts

-- What a check says of a task; all but `fine` are logged and make the check fail.
pub data Verdict : Type 0 where
  fine stalled too_slow too_fast : Verdict

unfoldable pub judge : TaskStats → Verdict
judge t =
    if (t.nudges == 0) && ltb 0 t.min_nudges
    then Verdict.stalled
    else (if ltb t.nudges t.min_nudges
        then Verdict.too_slow
        else (if ltb t.max_nudges unlimited_nudges && ltb t.max_nudges t.nudges
            then Verdict.too_fast
            else Verdict.fine))

-- The body of the loop of `checkTasks`.
unfoldable pub check_task : TaskStats → Verdict × TaskStats
unfolding is_task_valid judge
check_task t =
    let left = u8 (t.time_until_next_check_sec + 255) in
    if not (is_task_valid t) || not t.enabled
    then (Verdict.fine, t)
    else (if ltb 0 left
        then (Verdict.fine, record t { time_until_next_check_sec = left })
        else (judge t, record t { time_until_next_check_sec = t.interval_sec; nudges = 0 }))

-- The result of a check, the verdicts in the order of the slots, the tasks afterwards, and how often
-- the watchdog is reset.
pub record Checked : Type 0 where
  pub result : Bool
  pub verdicts : List Verdict
  pub tasks : List TaskStats
  pub watchdog_resets : ℕ

abbrev pub is_fine : Verdict → Bool
is_fine Verdict.fine = true
is_fine v = false

abbrev pub check_from : List TaskStats → Bool × List Verdict × List TaskStats
check_from [] = (true, [], [])
check_from (t ∷ ts) =
    let r = check_task t in
    let rest = check_from ts in (is_fine r.0 && rest.0, r.0 ∷ rest.1, r.1 ∷ rest.2)

unfoldable pub check_tasks : List TaskStats → Checked
unfolding check_task
check_tasks ts =
    let r = check_from ts in
    record { result = r.0; verdicts = r.1; tasks = r.2; watchdog_resets = 1 }
