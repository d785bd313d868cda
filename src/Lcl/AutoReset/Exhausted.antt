-- ===== src/Lcl/AutoReset/Exhausted.antt =====
-- How src/modules/lcl.cpp gives a limiter up that does not recover.
use obc.Common.{
  ℕ, zero, suc, ◌+◌, ◌*◌, ◌-◌, ◌≤◌, ◌<◌, ◌^◌, if◌then◌else◌, List, [], ◌∷◌, Bool, true, false, ◌≡◌,
  refl, sym, arith, length,
}
use obc.Lcl.AutoReset.{
  AutoReset, AutoResetState, update_one, update_on, update_waiting, update_tried_recently,
  switch_state, max_reset_count,
}
use obc.Lcl.AutoReset.Paced.{run, AllTriggered}

-- The times of the updates ascend from `from`, are at most `gap` apart and fit 32 bits.
abbrev pub Follow : ℕ → ℕ → List (ℕ × Bool) → Type 0
Follow gap from [] = Unit
Follow gap from ((now, _) ∷ rest) =
    (from ≤ now) × (now ≤ from + gap) × (now < 2 ^ 32) × Follow gap now rest

-- The time of the last update.
abbrev pub end_of : ℕ → List (ℕ × Bool) → ℕ
end_of from [] = from
end_of from ((now, _) ∷ rest) = end_of now rest

-- How long `n` resets take at most.
abbrev pub period : ℕ → ℕ → ℕ
period gap n = n * (6000 + 3 * gap)

period-suc : (gap n : ℕ) → period gap (suc n) ≡ period gap n + 6000 + 3 * gap
period-suc gap n = omega arith

-- The time by which a limiter is given up after `n` more resets, when the last update was at `now`.
abbrev deadline : AutoResetState → ℕ → ℕ → ℕ → AutoReset → ℕ
deadline AutoResetState.on gap n now r = now + gap + period gap n
deadline AutoResetState.waiting gap n now r = r.last_trigger_at + period gap n
deadline AutoResetState.tried_recently gap n now r = r.last_reset_at + 3000 + 2 * gap + period gap n
deadline _ gap n now r = 0

-- The data of a limiter with `n` resets left after the update at time `now`.
abbrev IsLeft : AutoResetState → ℕ → ℕ → AutoReset → Type 0
IsLeft AutoResetState.on n now r = n + r.reset_counter ≡ max_reset_count
IsLeft AutoResetState.waiting n now r =
    (n + r.reset_counter ≡ max_reset_count)
    × (1 ≤ n)
    × (r.last_trigger_at ≤ now)
    × (now < r.last_trigger_at + 3000)
IsLeft AutoResetState.tried_recently n now r =
    (n + r.reset_counter ≡ max_reset_count)
    × (r.last_reset_at ≤ now)
    × (now < r.last_reset_at + 3000)
IsLeft AutoResetState.given_up n now r = n ≡ 0
IsLeft _ n now r = ⊥

-- What an update at time `now` leaves, with or without a reset, and no later than before.
abbrev LeftAfter : ℕ → ℕ → ℕ → ℕ → AutoReset × Bool → Type 0
LeftAfter gap n now bound (r, true) =
    (1 ≤ n) × IsLeft r.state (n - 1) now r × (deadline r.state gap (n - 1) now r ≤ bound)
LeftAfter gap n now bound (r, false) =
    IsLeft r.state n now r × (deadline r.state gap n now r ≤ bound)

switch_state-LeftAfter :
    (s : AutoResetState) (gap n before now : ℕ) (r : AutoReset)
    → r.state ≡ s
    → before ≤ now
    → now ≤ before + gap
    → now < 2 ^ 32
    → IsLeft s n before r
    → LeftAfter gap n now (deadline s gap n before r) (switch_state s now true r)
unfolding update_on update_waiting update_tried_recently
switch_state-LeftAfter AutoResetState.disabled gap n before now r e a b c h = absurd h
switch_state-LeftAfter AutoResetState.off gap n before now r e a b c h = absurd h
switch_state-LeftAfter AutoResetState.given_up gap n before now r e a b c h = ground (arith, e)
switch_state-LeftAfter AutoResetState.on gap zero before now r e a b c h = ground (arith, e)
switch_state-LeftAfter AutoResetState.on gap (suc n) before now r e a b c h = ground (arith, e)
switch_state-LeftAfter AutoResetState.tried_recently gap n before now r e a b c h =
    ground (arith, e)
switch_state-LeftAfter AutoResetState.waiting gap zero before now r e a b c h =
    absurd (omega (arith, h.1))
switch_state-LeftAfter AutoResetState.waiting gap (suc n) before now r e a b c h =
    ground (arith, e, period-suc gap n)

-- What a run of updates of a triggered limiter that lasts until the deadline comes to.
abbrev IsExhausted : ℕ → AutoReset × List ℕ → Type 0
IsExhausted n (r, times) = (r.state ≡ AutoResetState.given_up) × (length times ≡ n)

IsExhausted-step :
    (us : List (ℕ × Bool)) (gap n now bound : ℕ) (p : AutoReset × Bool)
    → ((m : ℕ)
        → IsLeft p.0.state m now p.0
        → deadline p.0.state gap m now p.0 ≤ end_of now us
        → IsExhausted m (run us p.0))
    → bound ≤ end_of now us
    → LeftAfter gap n now bound p
    → let (r, times) = run us p.0 in IsExhausted n (r, if p.1 then now ∷ times else times)
IsExhausted-step us gap n now bound (r, true) ih l h =
    let rest = ih (n - 1) h.1 (omega (arith, h.2)) in (rest.0, omega (arith, rest.1, h.0))
IsExhausted-step us gap n now bound (r, false) ih l h = ih n h.0 (omega (arith, h.1))

too_early :
    (s : AutoResetState) (gap n now : ℕ) (r : AutoReset)
    → r.state ≡ s
    → 0 < gap
    → IsLeft s n now r
    → deadline s gap n now r ≤ now
    → IsExhausted n (r, [])
too_early AutoResetState.disabled gap n now r e g h l = absurd h
too_early AutoResetState.off gap n now r e g h l = absurd h
too_early AutoResetState.given_up gap n now r e g h l = (e, sym h)
too_early AutoResetState.on gap n now r e g h l = absurd (omega (arith, h, l))
too_early AutoResetState.tried_recently gap n now r e g h l = absurd (omega (arith, h.2, l))
too_early AutoResetState.waiting gap zero now r e g h l = absurd (omega (arith, h.1))
too_early AutoResetState.waiting gap (suc n) now r e g h l =
    absurd (omega (arith, h.3, l, period-suc gap n))

run-IsExhausted :
    (us : List (ℕ × Bool)) (gap n now : ℕ) (r : AutoReset)
    → 0 < gap
    → IsLeft r.state n now r
    → AllTriggered us
    → Follow gap now us
    → deadline r.state gap n now r ≤ end_of now us
    → IsExhausted n (run us r)
unfolding update_one
run-IsExhausted [] gap n now r g h t f l = too_early r.state gap n now r refl g h l
run-IsExhausted ((time, true) ∷ us) gap n now r g h t f l =
    IsExhausted-step us gap n time (deadline r.state gap n now r) (update_one time true r)
      (λ m k d. run-IsExhausted us gap m time (update_one time true r).0 g k t.1 f.3 d) l
      (switch_state-LeftAfter r.state gap n now time r refl f.0 f.1 f.2 h)
run-IsExhausted ((time, false) ∷ us) gap n now r g h t f l = absurd (cc)

-- The updates of a limiter while the signal LO stays on: if a limiter is on, `n` resets below the
-- limit of ten, and its query pin stays active, then updates at any times that fit 32 bits and are
-- at most `gap` milliseconds apart, over a time of `gap` and `n` times six seconds and three gaps,
-- reset the limiter exactly `n` times and give it up.
pub run-gives_up :
    (us : List (ℕ × Bool)) (gap n start : ℕ) (r : AutoReset)
    → r.state ≡ AutoResetState.on
    → n + r.reset_counter ≡ max_reset_count
    → 0 < gap
    → AllTriggered us
    → Follow gap start us
    → start + gap + n * (6000 + 3 * gap) ≤ end_of start us
    → ((run us r).0.state ≡ AutoResetState.given_up) × (length (run us r).1 ≡ n)
run-gives_up us gap n start r e h g t f l =
    run-IsExhausted us gap n start r g (ground (arith, e)) t f (ground (arith, e))
