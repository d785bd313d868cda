-- ===== src/Lcl.antt =====
-- src/modules/lcl.cpp: the latching current limiters. This file models their pins and the reset
-- pulses; the log records and the logger are left out.
pub mod Pulse
pub mod AutoReset
mod Tests
use obc.Common.{
  ℕ, zero, suc, ◌+◌, ◌^◌, bit_and, ◌==◌, ltb, if◌then◌else◌, get_or, List, [], ◌∷◌, ◌++◌, Bool,
  true, false,
}
use obc.Common.Words.{u8}

-- A pin is its number in `pin_t` of src/hal/gpio.h. What the module does with the pins, in order.
pub data PinAction : Type 0 where
  write : ℕ → Bool → PinAction
  delay_msec : ℕ → PinAction

abbrev pub num_lcls : ℕ
num_lcls = 6

-- `pin_map`: the query pin and the reset pin of each limiter.
abbrev pub pin_map : List (ℕ × ℕ)
pin_map = (3, 9) ∷ (4, 10) ∷ (5, 11) ∷ (6, 12) ∷ (7, 13) ∷ (8, 14) ∷ []

unfoldable pub query_pin : ℕ → ℕ
query_pin lcl = (get_or pin_map lcl (0, 0)).0

unfoldable pub reset_pin : ℕ → ℕ
reset_pin lcl = (get_or pin_map lcl (0, 0)).1

-- The limiters in the order of the loops.
abbrev pub lcls : List ℕ
lcls = 0 ∷ 1 ∷ 2 ∷ 3 ∷ 4 ∷ 5 ∷ []

-- `lcls_to_reset & (1 << lcl)`.
unfoldable pub selected : ℕ → ℕ → Bool
selected lcls_to_reset lcl = if bit_and lcls_to_reset (2 ^ lcl) == 0 then false else true

-- One of the two loops of `resetMultiple`.
abbrev pub write_selected : ℕ → Bool → List ℕ → List PinAction
write_selected lcls_to_reset value [] = []
write_selected lcls_to_reset value (lcl ∷ rest) =
    let tail = write_selected lcls_to_reset value rest in
    if selected lcls_to_reset lcl then PinAction.write (reset_pin lcl) value ∷ tail else tail

-- The delay of `resetMultiple`, which is skipped when the first loop wrote nothing.
abbrev pub delay_after : ℕ → List PinAction → List PinAction
delay_after duration [] = []
delay_after duration (_ ∷ _) = PinAction.delay_msec duration ∷ []

unfoldable pub reset_multiple : ℕ → ℕ → List PinAction
reset_multiple duration lcls_to_reset =
    let written = write_selected lcls_to_reset true lcls in
    written ++ delay_after duration written ++ write_selected lcls_to_reset false lcls

-- `reset`: the argument of `resetMultiple` has eight bits.
unfoldable pub reset : ℕ → ℕ → List PinAction
reset duration lcl = reset_multiple duration (u8 (2 ^ u8 lcl))

-- `triggered`, given the levels of the pins.
unfoldable pub triggered : (ℕ → Bool) → ℕ → Bool
triggered read lcl = if ltb lcl num_lcls then read (query_pin lcl) else false

-- The loop of `init` over the reset pins.
abbrev pub idle_all : List ℕ → List PinAction
idle_all [] = []
idle_all (lcl ∷ rest) = PinAction.write (reset_pin lcl) false ∷ idle_all rest

-- The pulse duration, which is the state of the module besides that of the automatic resets.
abbrev pub initial_pulse_duration_msec : ℕ
initial_pulse_duration_msec = 100

-- What `init` writes to the pins.
unfoldable pub init : List PinAction
init = idle_all lcls

unfoldable pub set_reset_pulse_duration_msec : ℕ → ℕ → ℕ
set_reset_pulse_duration_msec duration old = duration
