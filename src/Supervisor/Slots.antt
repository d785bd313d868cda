-- ===== src/Supervisor/Slots.antt =====
-- The slots of the tasks and queues of src/modules/supervisor.cpp.
use obc.Common.{
  ℕ, suc, ◌-◌, ◌<◌, ◌≤◌, ◌≡◌, ◌⊎◌, inl, inr, refl, sym, ap, not, if-intro, get_or, set, length,
  List, [], ◌∷◌, All, true, false, some, arith,
}
use obc.Supervisor.{
  invalid_token, TaskStats, cleared, is_task_valid, registered, shifted, register_from,
  register_task,
}
use obc.Supervisor.Queues.{QueueStats, is_queue_valid, register_all, register_queue}

-- A slot that a new task has taken: it is valid, has the name, is checked once in a second, which
-- is still to pass, and any number of nudges is fine; whether it is enabled and the nudges that it has
-- counted are those of the slot before.
abbrev pub IsNew : List ℕ → TaskStats → TaskStats → Type 0
IsNew name before t =
    (is_task_valid t ≡ true)
    × (t.name ≡ some name)
    × (t.interval_sec ≡ 1)
    × (t.time_until_next_check_sec ≡ 1)
    × (t.min_nudges ≡ 0)
    × (t.max_nudges ≡ 65535)
    × (t.enabled ≡ before.enabled)
    × (t.nudges ≡ before.nudges)

-- A registration from the slot `i` on: it takes a free slot and changes no other, or there is none.
abbrev pub RegistersFrom : List ℕ → ℕ → List TaskStats → ℕ × List TaskStats → Type 0
RegistersFrom name i ts r =
    let k = r.0 - i in
    let before = get_or ts k cleared in
    let after = get_or r.1 k cleared in
    ((i ≤ r.0)
      × (k < length ts)
      × (is_task_valid before ≡ false)
      × IsNew name before after
      × (r.1 ≡ set ts k after))
    ⊎ ((r.0 ≡ invalid_token) × (r.1 ≡ ts) × All (λ x. is_task_valid x ≡ true) ts)

registered-IsNew : (name : List ℕ) (t : TaskStats) → IsNew name t (registered name t)
unfolding is_task_valid
registered-IsNew name t = (refl, refl, refl, refl, refl, refl, refl, refl)

register_from-taken :
    (name : List ℕ) (i : ℕ) (t : TaskStats) (ts : List TaskStats)
    → is_task_valid t ≡ false
    → RegistersFrom name i (t ∷ ts) (i, registered name t ∷ ts)
register_from-taken name i t ts v =
    let here : 0 ≡ i - i = omega arith in
    inl (rw (sym here) (omega arith, omega arith, v, registered-IsNew name t, refl))

register_from-shifted :
    (name : List ℕ) (i : ℕ) (t : TaskStats) (ts : List TaskStats) (r : ℕ × List TaskStats)
    → is_task_valid t ≡ true
    → RegistersFrom name (suc i) ts r
    → RegistersFrom name i (t ∷ ts) (shifted t r)
register_from-shifted name i t ts (token, ts') v (inr h) =
    inr (h.0, ap (λ xs. t ∷ xs) h.1, (v, h.2))
register_from-shifted name i t ts (token, ts') v (inl h) =
    let next : suc (token - suc i) ≡ token - i = omega (arith, h.0) in
    inl (rw (sym next) (omega (arith, h.0), omega (arith, h.1), h.2, h.3, ap (λ xs. t ∷ xs) h.4))

register_from-RegistersFrom :
    (name : List ℕ) (i : ℕ) (ts : List TaskStats)
    → RegistersFrom name i ts (register_from name i ts)
register_from-RegistersFrom name i [] = inr (refl, refl, tt)
register_from-RegistersFrom name i (t ∷ ts) =
    if-intro (RegistersFrom name i (t ∷ ts)) (not (is_task_valid t))
      (λ v. register_from-taken name i t ts (ground arith))
      (λ v.
        register_from-shifted name i t ts (register_from name (suc i) ts) (ground arith)
          (register_from-RegistersFrom name (suc i) ts))

-- Registering a task by its name: it gets the token of a free slot, which is then taken by a task with
-- that name, an interval of one second and no limits on its nudges, and no other slot changes; or all
-- slots are taken, the token is invalid and nothing changes.
pub register_task-RegistersFrom :
    (name : List ℕ) (ts : List TaskStats) → RegistersFrom name 0 ts (register_task (some name) ts)
unfolding register_task
register_task-RegistersFrom name ts = register_from-RegistersFrom name 0 ts

-- Registering a queue: the token is always the invalid one, and afterwards no slot is free, so that
-- registering another queue changes nothing.
pub register_queue_fills :
    (name name' : List ℕ) (queue queue' : ℕ) (qs : List QueueStats)
    → let r = register_queue (some name) (some queue) qs in
      (r.0 ≡ invalid_token)
      × All (λ q. is_queue_valid q ≡ true) r.1
      × (register_queue (some name') (some queue') r.1 ≡ (invalid_token, r.1))
unfolding register_queue
register_queue_fills name name' queue queue' qs = (
  refl,
  filled qs,
  ap (λ rs. (invalid_token, rs)) (full (register_all name queue qs) (filled qs)),
)
  where
    filled :
        (qs : List QueueStats) → All (λ q. is_queue_valid q ≡ true) (register_all name queue qs)
    filled [] = tt
    filled (q ∷ qs) = (ground arith, filled qs)

    full :
        (qs : List QueueStats)
        → All (λ q. is_queue_valid q ≡ true) qs
        → register_all name' queue' qs ≡ qs
    full [] h = refl
    full (q ∷ qs) h = ground (arith, h.0, full qs h.1)
