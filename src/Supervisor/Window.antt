-- ===== src/Supervisor/Window.antt =====
-- What the checks of src/modules/supervisor.cpp say of a task over its interval.
use obc.Common.{
  ℕ, zero, suc, ◌+◌, ◌<◌, ◌≡◌, refl, ap, ◌∙◌, length, replicate, List, [], ◌∷◌, ◌++◌, true, arith,
}
use obc.Common.Words.{u16, IsU16}
use obc.Supervisor.{TaskStats, nudged, Verdict, judge, check_task, is_task_valid}

-- `k` calls of `nudge`.
abbrev pub nudge_times : ℕ → TaskStats → TaskStats
nudge_times zero t = t
nudge_times (suc k) t = nudge_times k (nudged t)

-- Seconds in which the task is nudged so many times, with a check at the end of each.
abbrev pub seconds : List ℕ → TaskStats → List Verdict × TaskStats
seconds [] t = ([], t)
seconds (k ∷ ks) t =
    let r = check_task (nudge_times k t) in let rest = seconds ks r.1 in (r.0 ∷ rest.0, rest.1)

abbrev pub sum : List ℕ → ℕ
sum [] = 0
sum (k ∷ ks) = k + sum ks

pub nudge_times_lem :
    (k : ℕ) (t : TaskStats)
    → t.enabled ≡ true
    → IsU16 t.nudges
    → nudge_times k t ≡ record t { nudges = u16 (t.nudges + k) }
nudge_times_lem zero t e h = ground arith
nudge_times_lem (suc k) t e h = nudge_times_lem k (nudged t) refl (omega arith) ∙ ground arith

pub check_task-waiting :
    (t : TaskStats) (m : ℕ)
    → is_task_valid t ≡ true
    → t.enabled ≡ true
    → t.time_until_next_check_sec ≡ suc (suc m)
    → suc (suc m) < 256
    → check_task t ≡ (Verdict.fine, record t { time_until_next_check_sec = suc m })
unfolding check_task
check_task-waiting t m v e h l = ground (arith, v, e)

pub check_task-due :
    (t : TaskStats)
    → is_task_valid t ≡ true
    → t.enabled ≡ true
    → t.time_until_next_check_sec ≡ 1
    → check_task t ≡ (judge t, record t { time_until_next_check_sec = t.interval_sec; nudges = 0 })
unfolding check_task
check_task-due t v e h = ground (arith, v, e)

judge-same :
    (t t' : TaskStats)
    → t.min_nudges ≡ t'.min_nudges
    → t.max_nudges ≡ t'.max_nudges
    → t.nudges ≡ t'.nudges
    → judge t ≡ judge t'
unfolding judge
judge-same t t' a b c = ground arith

-- A registered and enabled task whose next check is due in the last of these seconds, of which there
-- are at most 255: the seconds before pass without a complaint, the last one judges the nudges of
-- all seconds and those that were counted before, as a 16-bit count, and a new interval begins with
-- no nudges counted.
pub seconds-judge :
    (m : ℕ) (ks : List ℕ) (t : TaskStats)
    → is_task_valid t ≡ true
    → t.enabled ≡ true
    → IsU16 t.nudges
    → t.time_until_next_check_sec ≡ suc m
    → suc m < 256
    → length ks ≡ suc m
    → seconds ks t ≡ (
      replicate m Verdict.fine ++ (judge (record t { nudges = u16 (t.nudges + sum ks) }) ∷ []),
      record t { time_until_next_check_sec = t.interval_sec; nudges = 0 },
    )
unfolding is_task_valid
seconds-judge m [] t v e n h l len = absurd (omega (arith, len))
seconds-judge zero (k ∷ k' ∷ ks) t v e n h l len = absurd (omega (arith, len))
seconds-judge zero (k ∷ []) t v e n h l len =
    let t' = record t { nudges = u16 (t.nudges + k) } in
    let total : t.nudges + k ≡ t.nudges + (k + 0) = omega arith in
    ap (λ x. ((check_task x).0 ∷ [], (check_task x).1)) (nudge_times_lem k t e n)
    ∙ ap (λ r. (r.0 ∷ [], r.1)) (check_task-due t' v e h)
    ∙ ap
        (λ c. (
          judge (record t { nudges = u16 c }) ∷ [],
          record t { time_until_next_check_sec = t.interval_sec; nudges = 0 },
        ))
        total
seconds-judge (suc m) (k ∷ ks) t v e n h l len =
    let t' = record t { nudges = u16 (t.nudges + k) } in
    let t'' = record t' { time_until_next_check_sec = suc m } in
    let later = seconds-judge m ks t'' v e (omega arith) refl (omega arith) (omega (arith, len)) in
    let total : u16 (u16 (t.nudges + k) + sum ks) ≡ u16 (t.nudges + (k + sum ks)) = omega arith in
    ap (λ x. ((check_task x).0 ∷ (seconds ks (check_task x).1).0, (seconds ks (check_task x).1).1))
      (nudge_times_lem k t e n)
    ∙ ap (λ r. (r.0 ∷ (seconds ks r.1).0, (seconds ks r.1).1)) (check_task-waiting t' m v e h l)
    ∙ ap (λ r. (Verdict.fine ∷ r.0, r.1)) later
    ∙ ap
        (λ j. (
          Verdict.fine ∷ (replicate m Verdict.fine ++ (j ∷ [])),
          record t { time_until_next_check_sec = t.interval_sec; nudges = 0 },
        ))
        (judge-same (record t'' { nudges = u16 (u16 (t.nudges + k) + sum ks) })
          (record t { nudges = u16 (t.nudges + (k + sum ks)) }) refl refl total)
