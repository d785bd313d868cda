-- ===== src/Supervisor/Sound.antt =====
-- The invariant of the tasks of src/modules/supervisor.cpp.
use obc.Common.{
  ℕ, zero, suc, ◌≤◌, ◌≡◌, ltb, not, if-intro, get_or, set, replicate, List, [], ◌∷◌, All, true,
  Option, none, some, arith,
}
use obc.Common.Words.{IsU16, IsByte}
use obc.Supervisor.{
  is_named, max_tasks, TaskStats, cleared, init, is_task_valid, registered, shifted, register_from,
  register_task, on_task, unregister_task, disabled, disable_task, nudged, nudge_task,
  with_interval, in_seconds, expecting, expect, check_task, check_from, check_tasks,
}

-- What is done to the tasks; a token is any byte.
pub data Action : Type 0 where
  register : Option (List ℕ) → Action
  unregister disable nudge : ℕ → Action
  set_interval : (interval_sec : ℕ) → IsByte interval_sec → ℕ → Action
  set_expected : ℕ → ℕ → ℕ → Action
  check : Action

abbrev pub perform : List TaskStats → Action → List TaskStats
perform ts (Action.register name) = (register_task name ts).1
perform ts (Action.unregister token) = unregister_task token ts
perform ts (Action.disable token) = disable_task token ts
perform ts (Action.nudge token) = nudge_task token ts
perform ts (Action.set_interval interval_sec h token) = in_seconds interval_sec token ts
perform ts (Action.set_expected min max token) = expect min max token ts
perform ts Action.check = (check_tasks ts).tasks

abbrev pub run : List TaskStats → List Action → List TaskStats
run ts [] = ts
run ts (a ∷ actions) = run (perform ts a) actions

-- The counters are words, and a task with a name is checked within its interval, which is not zero.
abbrev pub IsSound : TaskStats → Type 0
IsSound t =
    IsByte t.interval_sec
    × IsByte t.time_until_next_check_sec
    × IsU16 t.nudges
    × (is_named t.name ≡ true
        → (1 ≤ t.time_until_next_check_sec) × (t.time_until_next_check_sec ≤ t.interval_sec))

cleared-IsSound : IsSound cleared
cleared-IsSound = ground arith

All-set :
    (ts : List TaskStats) (i : ℕ) (t : TaskStats)
    → All IsSound ts
    → IsSound t
    → All IsSound (set ts i t)
All-set [] i t h g = tt
All-set (x ∷ ts) zero t h g = (g, h.1)
All-set (x ∷ ts) (suc i) t h g = (h.0, All-set ts i t h.1 g)

get_or-IsSound : (ts : List TaskStats) (i : ℕ) → All IsSound ts → IsSound (get_or ts i cleared)
get_or-IsSound [] i h = cleared-IsSound
get_or-IsSound (t ∷ ts) zero h = h.0
get_or-IsSound (t ∷ ts) (suc i) h = get_or-IsSound ts i h.1

on_task-IsSound :
    (f : TaskStats → TaskStats) (token : ℕ) (ts : List TaskStats)
    → ((t : TaskStats) → IsSound t → IsSound (f t))
    → All IsSound ts
    → All IsSound (on_task f token ts)
unfolding on_task
on_task-IsSound f token ts g h =
    if-intro (All IsSound) (ltb token max_tasks)
      (λ l.
        All-set ts token (f (get_or ts token cleared)) h
          (g (get_or ts token cleared) (get_or-IsSound ts token h)))
      (λ l. h)

with_interval-IsSound :
    (interval_sec : ℕ) (t : TaskStats)
    → IsByte interval_sec
    → IsSound t
    → IsSound (with_interval interval_sec t)
with_interval-IsSound interval_sec t b h = ground arith

nudged-IsSound : (t : TaskStats) → IsSound t → IsSound (nudged t)
nudged-IsSound t h = ground arith

disabled-IsSound : (t : TaskStats) → IsSound t → IsSound (disabled t)
disabled-IsSound t h = ground arith

expecting-IsSound : (min max : ℕ) (t : TaskStats) → IsSound t → IsSound (expecting min max t)
expecting-IsSound min max t h = ground arith

registered-IsSound : (name : List ℕ) (t : TaskStats) → IsSound t → IsSound (registered name t)
registered-IsSound name t h = ground arith

check_task-IsSound : (t : TaskStats) → IsSound t → IsSound (check_task t).1
unfolding check_task
check_task-IsSound t h = ground arith

register_from-IsSound :
    (name : List ℕ) (i : ℕ) (ts : List TaskStats)
    → All IsSound ts
    → All IsSound (register_from name i ts).1
register_from-IsSound name i [] h = tt
register_from-IsSound name i (t ∷ ts) h =
    if-intro (λ (r : ℕ × List TaskStats). All IsSound r.1) (not (is_task_valid t))
      (λ v. (registered-IsSound name t h.0, h.1))
      (λ v.
        shifted-IsSound (register_from name (suc i) ts) (register_from-IsSound name (suc i) ts h.1))
  where
    shifted-IsSound : (r : ℕ × List TaskStats) → All IsSound r.1 → All IsSound (shifted t r).1
    shifted-IsSound (token, ts') g = (h.0, g)

register_task-IsSound :
    (name : Option (List ℕ)) (ts : List TaskStats)
    → All IsSound ts
    → All IsSound (register_task name ts).1
unfolding register_task
register_task-IsSound none ts h = h
register_task-IsSound (some name) ts h = register_from-IsSound name 0 ts h

check_from-IsSound : (ts : List TaskStats) → All IsSound ts → All IsSound (check_from ts).2
check_from-IsSound [] h = tt
check_from-IsSound (t ∷ ts) h = (check_task-IsSound t h.0, check_from-IsSound ts h.1)

check_tasks-IsSound : (ts : List TaskStats) → All IsSound ts → All IsSound (check_tasks ts).tasks
unfolding check_tasks
check_tasks-IsSound ts h = check_from-IsSound ts h

perform-IsSound : (ts : List TaskStats) (a : Action) → All IsSound ts → All IsSound (perform ts a)
unfolding unregister_task disable_task nudge_task in_seconds expect
perform-IsSound ts (Action.register name) h = register_task-IsSound name ts h
perform-IsSound ts (Action.unregister token) h =
    on_task-IsSound (λ t. cleared) token ts (λ t g. cleared-IsSound) h
perform-IsSound ts (Action.disable token) h = on_task-IsSound disabled token ts disabled-IsSound h
perform-IsSound ts (Action.nudge token) h = on_task-IsSound nudged token ts nudged-IsSound h
perform-IsSound ts (Action.set_interval interval_sec b token) h =
    on_task-IsSound (with_interval interval_sec) token ts
      (λ t g. with_interval-IsSound interval_sec t b g) h
perform-IsSound ts (Action.set_expected min max token) h =
    on_task-IsSound (expecting min max) token ts (expecting-IsSound min max) h
perform-IsSound ts Action.check h = check_tasks-IsSound ts h

init-IsSound : All IsSound init
unfolding init
init-IsSound = replicated max_tasks
  where
    replicated : (n : ℕ) → All IsSound (replicate n cleared)
    replicated zero = tt
    replicated (suc n) = (cleared-IsSound, replicated n)

runs-IsSound :
    (ts : List TaskStats) (actions : List Action) → All IsSound ts → All IsSound (run ts actions)
runs-IsSound ts [] h = h
runs-IsSound ts (a ∷ actions) h = runs-IsSound (perform ts a) actions (perform-IsSound ts a h)

-- After init and any actions, in any order: the counters of all tasks are words, and a task with a
-- name has an interval of at least a second, its next check is due within the interval, and its
-- countdown is not at zero, so that it never wraps.
pub run-IsSound : (actions : List Action) → All IsSound (run init actions)
run-IsSound actions = runs-IsSound init actions init-IsSound
