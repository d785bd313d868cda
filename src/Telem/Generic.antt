-- ===== src/Telem/Generic.antt =====
-- The types and constants of src/core/telem/generic.h.
pub mod Area
pub mod Component
pub mod FrameType
use obc.Common.{ℕ, ◌+◌}

-- Lengths of a telemetry message in bytes: its header, and the largest payload and message.
abbrev pub header_length : ℕ
header_length = 6

abbrev pub max_payload_length : ℕ
max_payload_length = 63

abbrev pub max_message_length : ℕ
max_message_length = max_payload_length + header_length + 2

-- `envelope_t`.
pub record Envelope : Type 0 where
  pub seq_no : ℕ
  pub frame_type : ℕ
  pub source : ℕ
  pub target : ℕ
