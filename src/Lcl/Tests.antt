-- ===== src/Lcl/Tests.antt =====
-- Runs of the limiters.
use obc.Common.{
  if◌then◌else◌, zero, suc, ◌+◌, ◌*◌, ◌<◌, ◌^◌, ℕ, List, [], ◌∷◌, length, Bool, true, false, ◌≡◌,
  refl, arith,
}
use obc.Lcl.{lcls, selected, reset_pin, query_pin, reset_multiple}
use obc.Lcl.Pulse.{levels, waits, any_selected, reset_multiple_pulse}
use obc.Lcl.AutoReset.{AutoReset, AutoResetState, fresh}
use obc.Lcl.AutoReset.Paced.{run, Spaced, run-Spaced, AllTriggered}
use obc.Lcl.AutoReset.Exhausted.{Follow, end_of, run-gives_up}

reset_multiple_pulse_example :
    let actions = reset_multiple 100 5 in
    (waits actions (λ pin. false) (reset_pin 2)
      ≡ (if any_selected 5 lcls then (100, selected 5 2) ∷ [] else []))
    × (levels actions (λ pin. false) (reset_pin 2) ≡ false)
    × (levels actions (λ pin. false) (query_pin 2) ≡ false)
reset_multiple_pulse_example = reset_multiple_pulse 100 5 2 (λ pin. false) (omega arith) refl

abbrev just_reset : AutoReset
just_reset = record {
  state = AutoResetState.tried_recently;
  last_trigger_at = 2000;
  last_reset_at = 5000;
  reset_counter = 1;
}

abbrev updates : List (ℕ × Bool)
updates = (6000, true) ∷ (8000, true) ∷ (8100, true) ∷ (11100, true) ∷ []

run-Spaced_example : Spaced 5000 (run updates just_reset).1
run-Spaced_example = run-Spaced updates just_reset refl (
  omega arith,
  omega arith,
  (omega arith, omega arith, (omega arith, omega arith, (omega arith, omega arith, tt))),
)

-- Updates each 100 ms, as the mission task makes them.
abbrev cadence : ℕ → ℕ → List (ℕ × Bool)
cadence start zero = []
cadence start (suc n) = (start + 100, true) ∷ cadence (start + 100) n

cadence-AllTriggered : (start n : ℕ) → AllTriggered (cadence start n)
cadence-AllTriggered start zero = tt
cadence-AllTriggered start (suc n) = (refl, cadence-AllTriggered (start + 100) n)

cadence-Follow : (start n : ℕ) → start + 100 * n < 2 ^ 32 → Follow 100 start (cadence start n)
cadence-Follow start zero h = tt
cadence-Follow start (suc n) h =
    (omega arith, omega arith, omega arith, cadence-Follow (start + 100) n (omega arith))

end_of-cadence : (start n : ℕ) → end_of start (cadence start n) ≡ start + 100 * n
end_of-cadence start zero = omega arith
end_of-cadence start (suc n) = omega (arith, end_of-cadence (start + 100) n)

abbrev tracked : AutoReset
tracked = fresh AutoResetState.on

run-gives_up_example :
    let r = run (cadence 1000 700) tracked in
    (r.0.state ≡ AutoResetState.given_up) × (length r.1 ≡ 10)
run-gives_up_example =
    run-gives_up (cadence 1000 700) 100 10 1000 tracked refl refl (omega arith)
      (cadence-AllTriggered 1000 700) (cadence-Follow 1000 700 (omega arith))
      (omega (arith, end_of-cadence 1000 700))
