-- ===== src/Frames/Clock.antt =====
-- src/core/telem/clock_status.cpp and clock_sync.cpp.
pub mod Laws
use obc.Common.{ℕ, ◌+◌, ◌*◌, bit_and, bit_or, List, ◌∷◌, ◌++◌, leb, ◌==◌, if◌then◌else◌, not, Bool}
use obc.Common.Words.{le32, le64, read32, read64}

-- `clock_status_data_t`.
pub record ClockStatusData : Type 0 where
  pub timestamp : ℕ
  pub mission_clock : ℕ
  pub rtc_timestamp : ℕ
  pub liftoff_timestamp : ℕ
  pub mission_clock_is_running : Bool
  pub liftoff_happened : Bool

-- `x |= 0x80000000U` if the flag is set, else `x &= ~0x80000000U`.
unfoldable pub with_flag : ℕ → Bool → ℕ
with_flag x flag = if flag then bit_or x 0x8000_0000 else bit_and x 0x7fff_ffff

abbrev pub clock_status_frame_size : ℕ
clock_status_frame_size = 20

unfoldable pub encode_clock_status_frame : ClockStatusData → List ℕ
encode_clock_status_frame d =
    le32 d.timestamp
    ++ le32 (with_flag d.mission_clock d.mission_clock_is_running)
    ++ le64 d.rtc_timestamp
    ++ le32 (with_flag d.liftoff_timestamp d.liftoff_happened)

unfoldable pub decode_clock_status_frame : List ℕ → ClockStatusData
decode_clock_status_frame bs = record {
  timestamp = read32 bs 0;
  mission_clock = bit_and (read32 bs 4) 0x7fff_ffff;
  rtc_timestamp = read64 bs 8;
  liftoff_timestamp = bit_and (read32 bs 16) 0x7fff_ffff;
  mission_clock_is_running = not (bit_and (read32 bs 4) 0x8000_0000 == 0);
  liftoff_happened = not (bit_and (read32 bs 16) 0x8000_0000 == 0);
}

unfoldable pub validate_encoded_clock_status_frame : ℕ → Bool
validate_encoded_clock_status_frame size = leb clock_status_frame_size size

-- `clock_sync_data_t` has one field, the timestamp.
unfoldable pub encode_clock_sync_frame : ℕ → List ℕ
encode_clock_sync_frame timestamp = le64 timestamp

unfoldable pub decode_clock_sync_frame : List ℕ → ℕ
decode_clock_sync_frame bs = read64 bs 0

unfoldable pub validate_encoded_clock_sync_frame : ℕ → Bool
validate_encoded_clock_sync_frame size = leb 8 size
