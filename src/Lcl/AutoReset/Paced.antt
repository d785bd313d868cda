-- ===== src/Lcl/AutoReset/Paced.antt =====
-- How often src/modules/lcl.cpp resets one limiter by itself.
use obc.Common.{
  ℕ, ◌+◌, ◌-◌, ◌≤◌, ◌<◌, ◌^◌, if◌then◌else◌, List, [], ◌∷◌, Bool, true, false, ◌≡◌, refl, arith,
  All, length, ◌⊎◌,
}
use obc.Lcl.AutoReset.{
  AutoReset, AutoResetState, update_one, update_on, update_waiting, update_tried_recently,
  switch_state, max_reset_count,
}

-- The counter never exceeds the limit, and is below it while a reset is pending.
abbrev pub CounterOk : AutoResetState → ℕ → Type 0
CounterOk AutoResetState.waiting n = n < max_reset_count
CounterOk _ n = n ≤ max_reset_count

abbrev pub IsValid : AutoReset → Type 0
IsValid r = CounterOk r.state r.reset_counter

-- An update keeps the counter of resets within its limit, so that its eight bits never wrap.
pub update_one-IsValid :
    (now : ℕ) (is_triggered : Bool) (r : AutoReset)
    → IsValid r
    → IsValid (update_one now is_triggered r).0
unfolding update_one update_on update_waiting update_tried_recently
update_one-IsValid now t r h = ground arith

-- A sequence of updates, each with its time and the level of the query pin: the data afterwards,
-- and the times of the resets.
abbrev pub run : List (ℕ × Bool) → AutoReset → AutoReset × List ℕ
run [] r = (r, [])
run ((now, is_triggered) ∷ rest) r =
    let (r', is_reset) = update_one now is_triggered r in
    let (r'', times) = run rest r' in (r'', if is_reset then now ∷ times else times)

-- The times of the updates ascend from `from` and fit 32 bits.
abbrev pub Ascend : ℕ → List (ℕ × Bool) → Type 0
Ascend from [] = Unit
Ascend from ((now, _) ∷ rest) = (from ≤ now) × (now < 2 ^ 32) × Ascend now rest

-- The times of the resets are six seconds apart, and the first is that long after `last`.
abbrev pub Spaced : ℕ → List ℕ → Type 0
Spaced last [] = Unit
Spaced last (t ∷ ts) = (last + 6000 ≤ t) × Spaced t ts

-- The data at time `now` of a limiter that was last reset at time `last`.
abbrev IsPaced : AutoResetState → ℕ → ℕ → AutoReset → Type 0
IsPaced AutoResetState.on last now r = last + 3000 ≤ now
IsPaced AutoResetState.waiting last now r =
    (last + 3000 ≤ r.last_trigger_at) × (r.last_trigger_at ≤ now)
IsPaced AutoResetState.tried_recently last now r = (r.last_reset_at ≡ last) × (last ≤ now)
IsPaced _ last now r = Unit

-- What an update at time `now` leaves, with or without a reset.
abbrev PacedAfter : ℕ → ℕ → AutoReset × Bool → Type 0
PacedAfter last now (r, true) = (last + 6000 ≤ now) × IsPaced r.state now now r
PacedAfter last now (r, false) = IsPaced r.state last now r

switch_state-IsPaced :
    (s : AutoResetState) (last before now : ℕ) (t : Bool) (r : AutoReset)
    → r.state ≡ s
    → before ≤ now
    → now < 2 ^ 32
    → IsPaced s last before r
    → PacedAfter last now (switch_state s now t r)
unfolding update_on update_waiting update_tried_recently
switch_state-IsPaced AutoResetState.disabled last before now t r e a b p = ground (arith, e)
switch_state-IsPaced AutoResetState.off last before now t r e a b p = ground (arith, e)
switch_state-IsPaced AutoResetState.given_up last before now t r e a b p = ground (arith, e)
switch_state-IsPaced AutoResetState.on last before now t r e a b p = ground (arith, e)
switch_state-IsPaced AutoResetState.waiting last before now t r e a b p = ground (arith, e)
switch_state-IsPaced AutoResetState.tried_recently last before now t r e a b p = ground (arith, e)

Spaced-step :
    (us : List (ℕ × Bool)) (last now : ℕ) (p : AutoReset × Bool)
    → ((last' : ℕ) → IsPaced p.0.state last' now p.0 → Spaced last' (run us p.0).1)
    → PacedAfter last now p
    → Spaced last (if p.1 then now ∷ (run us p.0).1 else (run us p.0).1)
Spaced-step us last now (r, true) ih (h, k) = (h, ih now k)
Spaced-step us last now (r, false) ih h = ih last h

run-Spaced_lem :
    (us : List (ℕ × Bool)) (last before : ℕ) (r : AutoReset)
    → Ascend before us
    → IsPaced r.state last before r
    → Spaced last (run us r).1
unfolding update_one
run-Spaced_lem [] last before r a p = tt
run-Spaced_lem ((now, t) ∷ us) last before r (a, b, c) p =
    Spaced-step us last now (update_one now t r)
      (λ last' q. run-Spaced_lem us last' now (update_one now t r).0 c q)
      (switch_state-IsPaced r.state last before now t r refl a b p)

-- The updates of a limiter while the signal LO stays on, so that its data are not cleared: after a
-- reset of the limiter, however its query pin behaves, if the times of the updates ascend and fit 32
-- bits, the automatic resets that follow are at least six seconds apart and six seconds after the
-- first.
pub run-Spaced :
    (us : List (ℕ × Bool)) (r : AutoReset)
    → r.state ≡ AutoResetState.tried_recently
    → Ascend r.last_reset_at us
    → Spaced r.last_reset_at (run us r).1
run-Spaced us r e a = run-Spaced_lem us r.last_reset_at r.last_reset_at r a (ground (arith, e))

-- How many resets are left before a limiter that does not recover is given up.
abbrev pub budget : AutoResetState → ℕ → ℕ
budget AutoResetState.on n = max_reset_count - n
budget AutoResetState.waiting n = max_reset_count - n
budget AutoResetState.tried_recently n = max_reset_count - n
budget _ n = 0

abbrev pub AllTriggered : List (ℕ × Bool) → Type 0
AllTriggered us = All (λ u. u.1 ≡ true) us

-- A limiter within its limit, whose query pin stays active at every update, is reset no more
-- often than ten times less its counter, and never if it is off, disabled or given up.
pub run-budget :
    (us : List (ℕ × Bool)) (r : AutoReset)
    → IsValid r
    → AllTriggered us
    → length (run us r).1 ≤ budget r.state r.reset_counter
unfolding update_one update_on update_waiting update_tried_recently
run-budget [] r v h = ground arith
run-budget ((now, t) ∷ us) r v (h, k) =
    ground (arith, run-budget us (update_one now t r).0 (update_one-IsValid now t r v) k)

-- A limiter that is given up, or that was off at liftoff, is not reset and does not change,
-- whatever the updates are.
pub run-absorbed :
    (us : List (ℕ × Bool)) (r : AutoReset)
    → (r.state ≡ AutoResetState.given_up) ⊎ (r.state ≡ AutoResetState.off)
    → run us r ≡ (r, [])
unfolding update_one
run-absorbed [] r h = refl
run-absorbed ((now, t) ∷ us) r h = ground (arith, run-absorbed us r h)
