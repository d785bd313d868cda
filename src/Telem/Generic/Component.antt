-- ===== src/Telem/Generic/Component.antt =====
-- `component_t` of src/core/telem/generic.h. It is cast from four bits of a message, so a number
-- that is none of these may stand for a component too.
use obc.Common.{ℕ}

abbrev pub unknown : ℕ
unknown = 0

abbrev pub ground_station : ℕ
ground_station = 1

abbrev pub onboard_computer : ℕ
onboard_computer = 2

abbrev pub scintillator_module : ℕ
scintillator_module = 3
