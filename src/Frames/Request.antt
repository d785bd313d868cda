-- ===== src/Frames/Request.antt =====
-- src/core/telem/lcl_reset.cpp, calibration.cpp, debug.cpp, echo.cpp and storage.cpp: the commands
-- of the ground station with fixed fields, and the echo frame.
pub mod Laws
use obc.Common.{
  ℕ, ◌+◌, ◌-◌, ◌*◌, ◌/◌, bit_and, bit_or, List, [], ◌∷◌, ◌++◌, drop, take, leb, ltb, ◌==◌,
  if◌then◌else◌, Bool, Option, none, some,
}
use obc.Common.Words.{u8, u16, le16, le32, read8, read16, read32}

-- `LCL_RESET_ALL`.
abbrev pub lcl_reset_all : ℕ
lcl_reset_all = 63

-- The request has one field, the set of limiters to reset.
unfoldable pub encode_lcl_reset_request_frame : ℕ → List ℕ
encode_lcl_reset_request_frame lcls = bit_and lcls lcl_reset_all ∷ []

unfoldable pub decode_lcl_reset_request_frame : List ℕ → ℕ
decode_lcl_reset_request_frame bs = bit_and (read8 bs 0) lcl_reset_all

-- The frames of one byte are valid if they are not empty.
unfoldable pub validate_encoded_lcl_reset_request_frame : ℕ → Bool
validate_encoded_lcl_reset_request_frame size = leb 1 size

-- `calibration_procedure_t`.
abbrev pub calibration_nop : ℕ
calibration_nop = 0

abbrev pub calibration_gyro : ℕ
calibration_gyro = 1

abbrev pub calibration_accel : ℕ
calibration_accel = 2

abbrev pub num_calibration_procedures : ℕ
num_calibration_procedures = 3

unfoldable pub encode_calibration_request_frame : ℕ → List ℕ
encode_calibration_request_frame procedure = u8 procedure ∷ []

unfoldable pub decode_calibration_request_frame : List ℕ → ℕ
decode_calibration_request_frame bs =
    if ltb (read8 bs 0) num_calibration_procedures then read8 bs 0 else calibration_nop

unfoldable pub validate_encoded_calibration_request_frame : ℕ → Bool
validate_encoded_calibration_request_frame size = leb 1 size

-- `NUM_DEBUG_COMMANDS`; command 0 does nothing.
abbrev pub num_debug_commands : ℕ
num_debug_commands = 13

unfoldable pub encode_debug_command_frame : ℕ → List ℕ
encode_debug_command_frame command = u8 command ∷ []

unfoldable pub decode_debug_command_frame : List ℕ → ℕ
decode_debug_command_frame bs = if ltb (read8 bs 0) num_debug_commands then read8 bs 0 else 0

unfoldable pub validate_encoded_debug_command_frame : ℕ → Bool
validate_encoded_debug_command_frame size = leb 1 size

-- `echo_data_t`; `content` is the first `data_length` bytes of its array of 63.
pub record EchoData : Type 0 where
  pub is_reply : ℕ
  pub content : List ℕ

unfoldable pub encode_echo_frame : EchoData → List ℕ
encode_echo_frame d = d.is_reply ∷ d.content

-- `none`: the copy would run over the end of the array of `decoded`.
unfoldable pub decode_echo_frame : List ℕ → ℕ → Option EchoData
decode_echo_frame bs size =
    let n = if leb 1 size then u8 (size - 1) else 0 in
    if ltb 63 n then none else some (record { is_reply = read8 bs 0; content = take n (drop 1 bs) })

unfoldable pub validate_encoded_echo_frame : ℕ → Bool
validate_encoded_echo_frame size = leb 1 size

-- `storage_area_t` and `storage_command_t` are cast from four bits each.
abbrev pub num_storage_areas : ℕ
num_storage_areas = 3

abbrev pub num_storage_commands : ℕ
num_storage_commands = 7

abbrev pub max_read_length : ℕ
max_read_length = 8192

-- `storage_command_data_t`.
pub record StorageCommandData : Type 0 where
  pub area : ℕ
  pub command : ℕ
  pub offset : ℕ
  pub size : ℕ

-- The longest read is sent as the length 0.
unfoldable pub encode_storage_command_frame : StorageCommandData → List ℕ
encode_storage_command_frame d =
    u8 (bit_or (d.area * 16) (bit_and d.command 0x0f))
    ∷ (le32 d.offset ++ le16 (if d.size == max_read_length then 0 else d.size))

unfoldable pub decode_storage_command_frame : List ℕ → StorageCommandData
decode_storage_command_frame bs =
    let area = read8 bs 0 / 16 in
    let command = bit_and (read8 bs 0) 0x0f in
    record {
      area = if ltb area num_storage_areas then area else 0;
      command = if ltb command num_storage_commands then command else 0;
      offset = read32 bs 1;
      size = if read16 bs 5 == 0 then max_read_length else read16 bs 5;
    }

unfoldable pub validate_encoded_storage_command_frame : ℕ → Bool
validate_encoded_storage_command_frame size = leb 7 size
