-- ===== src/Lcl/Pulse.antt =====
-- The levels of the pins while src/modules/lcl.cpp resets limiters.
use obc.Common.{
  ℕ, zero, suc, ◌<◌, ◌==◌, if◌then◌else◌, List, [], ◌∷◌, ◌++◌, Bool, true, false, ◌≡◌, refl, arith,
  ◌∙◌, ap, ap₂, ◌&&◌, ◌||◌, Bool-cases, inl, inr,
}
use mathlib.Core.List.{append-nil}
use obc.Lcl.{
  PinAction, lcls, selected, reset_pin, query_pin, write_selected, delay_after, reset_multiple,
  reset, num_lcls,
}

-- The levels of the pins after a sequence of actions.
abbrev pub levels : List PinAction → (ℕ → Bool) → ℕ → Bool
levels [] before pin = before pin
levels (PinAction.write p v ∷ rest) before pin =
    levels rest (λ q. if p == q then v else before q) pin
levels (PinAction.delay_msec d ∷ rest) before pin = levels rest before pin

levels-append :
    (xs ys : List PinAction) (before : ℕ → Bool) (pin : ℕ)
    → levels (xs ++ ys) before pin ≡ levels ys (λ q. levels xs before q) pin
levels-append [] ys before pin = refl
levels-append (PinAction.write p v ∷ xs) ys before pin =
    levels-append xs ys (λ q. if p == q then v else before q) pin
levels-append (PinAction.delay_msec d ∷ xs) ys before pin = levels-append xs ys before pin

levels-delay_after :
    (d : ℕ) (xs : List PinAction) (before : ℕ → Bool) (pin : ℕ)
    → levels (delay_after d xs) before pin ≡ before pin
levels-delay_after d [] before pin = refl
levels-delay_after d (_ ∷ _) before pin = refl

-- Whether one of some limiters is selected and has this reset pin.
abbrev hit : ℕ → ℕ → List ℕ → Bool
hit mask pin [] = false
hit mask pin (lcl ∷ rest) = ((reset_pin lcl == pin) && selected mask lcl) || hit mask pin rest

levels-write_selected :
    (mask : ℕ) (v : Bool) (ls : List ℕ) (before : ℕ → Bool) (pin : ℕ)
    → levels (write_selected mask v ls) before pin ≡ (if hit mask pin ls then v else before pin)
levels-write_selected mask v [] before pin = refl
levels-write_selected mask v (l ∷ ls) before pin = elim (Bool-cases (selected mask l)) [
  | inl h ↦
      grind
        (arith, levels-write_selected mask v ls (λ q. if reset_pin l == q then v else before q) pin)
  | inr h ↦ grind (arith, levels-write_selected mask v ls before pin)
]

-- The reset pin of a limiter is hit if and only if the limiter is selected.
hit-reset_pin : (mask lcl : ℕ) → lcl < num_lcls → hit mask (reset_pin lcl) lcls ≡ selected mask lcl
unfolding reset_pin
hit-reset_pin mask zero h = ground arith
hit-reset_pin mask (suc zero) h = ground arith
hit-reset_pin mask (suc (suc zero)) h = ground arith
hit-reset_pin mask (suc (suc (suc zero))) h = ground arith
hit-reset_pin mask (suc (suc (suc (suc zero)))) h = ground arith
hit-reset_pin mask (suc (suc (suc (suc (suc zero))))) h = ground arith
hit-reset_pin mask (suc (suc (suc (suc (suc (suc n)))))) h = absurd (omega arith)

-- The query pins are never hit.
hit-query_pin : (mask lcl : ℕ) → hit mask (query_pin lcl) lcls ≡ false
unfolding reset_pin query_pin
hit-query_pin mask zero = refl
hit-query_pin mask (suc zero) = refl
hit-query_pin mask (suc (suc zero)) = refl
hit-query_pin mask (suc (suc (suc zero))) = refl
hit-query_pin mask (suc (suc (suc (suc zero)))) = refl
hit-query_pin mask (suc (suc (suc (suc (suc zero))))) = refl
hit-query_pin mask (suc (suc (suc (suc (suc (suc n)))))) = refl

if-if : (b x : Bool) → (if b then false else (if b then true else x)) ≡ (if b then false else x)
if-if true x = refl
if-if false x = refl

levels-reset_multiple :
    (duration mask : ℕ) (before : ℕ → Bool) (pin : ℕ)
    → levels (reset_multiple duration mask) before pin
      ≡ (if hit mask pin lcls then false else before pin)
unfolding reset_multiple
levels-reset_multiple duration mask before pin =
    levels-append (w ++ delay_after duration w) (write_selected mask false lcls) before pin
    ∙ levels-write_selected mask false lcls (λ q. levels (w ++ delay_after duration w) before q) pin
    ∙ ap (λ b. if hit mask pin lcls then false else b)
        (levels-append w (delay_after duration w) before pin
          ∙ levels-delay_after duration w after pin
          ∙ levels-write_selected mask true lcls before pin)
    ∙ if-if (hit mask pin lcls) (before pin)
  where
    w : List PinAction
    w = write_selected mask true lcls

    after : ℕ → Bool
    after q = levels w before q

if-idle : (b x : Bool) → x ≡ false → (if b then true else x) ≡ b
if-idle true x h = refl
if-idle false x h = h

if-idle' : (b x : Bool) → x ≡ false → (if b then false else x) ≡ false
if-idle' true x h = refl
if-idle' false x h = h

-- The delays of a sequence of actions, and the level that a pin has at each.
abbrev pub waits : List PinAction → (ℕ → Bool) → ℕ → List (ℕ × Bool)
waits [] before pin = []
waits (PinAction.write p v ∷ rest) before pin = waits rest (λ q. if p == q then v else before q) pin
waits (PinAction.delay_msec d ∷ rest) before pin = (d, before pin) ∷ waits rest before pin

waits-append :
    (xs ys : List PinAction) (before : ℕ → Bool) (pin : ℕ)
    → waits (xs ++ ys) before pin ≡ waits xs before pin ++ waits ys (λ q. levels xs before q) pin
waits-append [] ys before pin = refl
waits-append (PinAction.write p v ∷ xs) ys before pin =
    waits-append xs ys (λ q. if p == q then v else before q) pin
waits-append (PinAction.delay_msec d ∷ xs) ys before pin =
    ap (λ ws. (d, before pin) ∷ ws) (waits-append xs ys before pin)

waits-write_selected :
    (mask : ℕ) (v : Bool) (ls : List ℕ) (before : ℕ → Bool) (pin : ℕ)
    → waits (write_selected mask v ls) before pin ≡ []
waits-write_selected mask v [] before pin = refl
waits-write_selected mask v (l ∷ ls) before pin = elim (Bool-cases (selected mask l)) [
  | inl h ↦
      grind
        (arith, waits-write_selected mask v ls (λ q. if reset_pin l == q then v else before q) pin)
  | inr h ↦ grind (arith, waits-write_selected mask v ls before pin)
]

-- Whether one of some limiters is selected.
abbrev pub any_selected : ℕ → List ℕ → Bool
any_selected mask [] = false
any_selected mask (lcl ∷ rest) = selected mask lcl || any_selected mask rest

waits-delay_after :
    (duration mask : ℕ) (ls : List ℕ) (before : ℕ → Bool) (pin : ℕ)
    → waits (delay_after duration (write_selected mask true ls)) before pin
      ≡ (if any_selected mask ls then (duration, before pin) ∷ [] else [])
waits-delay_after duration mask [] before pin = refl
waits-delay_after duration mask (l ∷ ls) before pin = elim (Bool-cases (selected mask l)) [
  | inl h ↦ grind arith
  | inr h ↦ grind (arith, waits-delay_after duration mask ls before pin)
]

waits-reset_multiple :
    (duration mask : ℕ) (before : ℕ → Bool) (pin : ℕ)
    → waits (reset_multiple duration mask) before pin ≡ (
        if any_selected mask lcls
        then (duration, levels (write_selected mask true lcls) before pin) ∷ []
        else [])
unfolding reset_multiple
waits-reset_multiple duration mask before pin =
    waits-append (w ++ delay_after duration w) (write_selected mask false lcls) before pin
    ∙ ap₂ ◌++◌
        (waits-append w (delay_after duration w) before pin
          ∙ ap₂ ◌++◌ (waits-write_selected mask true lcls before pin)
              (waits-delay_after duration mask lcls (λ q. levels w before q) pin))
        (waits-write_selected mask false lcls (λ q. levels (w ++ delay_after duration w) before q)
          pin)
    ∙ append-nil _
  where
    w : List PinAction
    w = write_selected mask true lcls

-- For one of the six limiters whose reset pin is idle before: if any of the six is selected,
-- `reset_multiple` waits once, for the duration of the pulse, and the reset pin is active during the
-- wait if and only if this limiter is selected, otherwise it does not wait; at the end the reset pin
-- is idle; the level of the query pin does not change.
pub reset_multiple_pulse :
    (duration mask lcl : ℕ) (before : ℕ → Bool)
    → lcl < num_lcls
    → before (reset_pin lcl) ≡ false
    → let actions = reset_multiple duration mask in
      (waits actions before (reset_pin lcl)
        ≡ (if any_selected mask lcls then (duration, selected mask lcl) ∷ [] else []))
      × (levels actions before (reset_pin lcl) ≡ false)
      × (levels actions before (query_pin lcl) ≡ before (query_pin lcl))
reset_multiple_pulse duration mask lcl before h idle = (
  waits-reset_multiple duration mask before (reset_pin lcl)
      ∙ ap (λ b. if any_selected mask lcls then (duration, b) ∷ [] else []) active,
  levels-reset_multiple duration mask before (reset_pin lcl)
      ∙ if-idle' (hit mask (reset_pin lcl) lcls) (before (reset_pin lcl)) idle,
  levels-reset_multiple duration mask before (query_pin lcl)
      ∙ ap (λ b. if b then false else before (query_pin lcl)) (hit-query_pin mask lcl),
)
  where
    active : levels (write_selected mask true lcls) before (reset_pin lcl) ≡ selected mask lcl
    active =
        levels-write_selected mask true lcls before (reset_pin lcl)
        ∙ ap (λ b. if b then true else before (reset_pin lcl)) (hit-reset_pin mask lcl h)
        ∙ if-idle (selected mask lcl) (before (reset_pin lcl)) idle

-- The reset of one limiter selects that limiter alone.
pub reset-selects :
    (duration lcl : ℕ)
    → lcl < num_lcls
    → reset duration lcl ≡ (
        PinAction.write (reset_pin lcl) true
        ∷ PinAction.delay_msec duration
        ∷ PinAction.write (reset_pin lcl) false
        ∷ [])
unfolding reset reset_multiple selected reset_pin
reset-selects duration zero h = refl
reset-selects duration (suc zero) h = refl
reset-selects duration (suc (suc zero)) h = refl
reset-selects duration (suc (suc (suc zero))) h = refl
reset-selects duration (suc (suc (suc (suc zero)))) h = refl
reset-selects duration (suc (suc (suc (suc (suc zero))))) h = refl
reset-selects duration (suc (suc (suc (suc (suc (suc n)))))) h = absurd (omega arith)
