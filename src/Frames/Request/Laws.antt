-- ===== src/Frames/Request/Laws.antt =====
-- The command frames of src/core/telem: their encoders against decoders and validators.
use obc.Common.{
  ℕ, ◌+◌, ◌*◌, ◌%◌, ◌≤◌, ◌<◌, bit_and, bit_or, List, [], ◌∷◌, length, true, some, ◌≢◌, ◌≡◌, arith,
  take-length,
}
use obc.Common.Bits.{bit_and_mask, bit_or_disjoint}
use obc.Common.Words.{IsU32}
use obc.Frames.Request.{
  encode_lcl_reset_request_frame, decode_lcl_reset_request_frame, encode_calibration_request_frame,
  decode_calibration_request_frame, num_calibration_procedures, encode_debug_command_frame,
  decode_debug_command_frame, num_debug_commands, EchoData, encode_echo_frame, decode_echo_frame,
  validate_encoded_echo_frame, num_storage_areas, num_storage_commands, max_read_length,
  StorageCommandData, encode_storage_command_frame, decode_storage_command_frame,
  validate_encoded_storage_command_frame,
}

-- The set of limiters comes back as its six low bits, and never names more limiters.
pub decode-encode_lcl_reset :
    (lcls : ℕ) → decode_lcl_reset_request_frame (encode_lcl_reset_request_frame lcls) ≡ lcls % 64
unfolding encode_lcl_reset_request_frame decode_lcl_reset_request_frame
decode-encode_lcl_reset lcls =
    omega (
      arith,
      bit_and_mask 6 lcls 63 (omega arith),
      bit_and_mask 6 (bit_and lcls 63) 63 (omega arith),
    )

pub decode_lcl_reset-lt : (bs : List ℕ) → decode_lcl_reset_request_frame bs < 64
unfolding decode_lcl_reset_request_frame
decode_lcl_reset-lt [] = omega (arith, bit_and_mask 6 0 63 (omega arith))
decode_lcl_reset-lt (b ∷ bs) = omega (arith, bit_and_mask 6 b 63 (omega arith))

pub decode-encode_calibration :
    (procedure : ℕ)
    → procedure < num_calibration_procedures
    → decode_calibration_request_frame (encode_calibration_request_frame procedure) ≡ procedure
unfolding encode_calibration_request_frame decode_calibration_request_frame
decode-encode_calibration procedure h = ground arith

pub decode-encode_debug :
    (command : ℕ)
    → command < num_debug_commands
    → decode_debug_command_frame (encode_debug_command_frame command) ≡ command
unfolding encode_debug_command_frame decode_debug_command_frame
decode-encode_debug command h = ground arith

pub decode-encode_echo :
    (d : EchoData)
    → length d.content ≤ 63
    → let bs = encode_echo_frame d in
      (validate_encoded_echo_frame (length bs) ≡ true) × (decode_echo_frame bs (length bs) ≡ some d)
unfolding encode_echo_frame decode_echo_frame validate_encoded_echo_frame
decode-encode_echo d h = ground (arith, take-length d.content)

-- Storage commands of known areas and kinds come back whole, the longest read among them.
pub decode-encode_storage :
    (d : StorageCommandData)
    → d.area < num_storage_areas
    → d.command < num_storage_commands
    → IsU32 d.offset
    → d.size ≢ 0
    → d.size ≤ max_read_length
    → (validate_encoded_storage_command_frame (length (encode_storage_command_frame d)) ≡ true)
      × (decode_storage_command_frame (encode_storage_command_frame d) ≡ d)
unfolding encode_storage_command_frame decode_storage_command_frame
    validate_encoded_storage_command_frame
decode-encode_storage d ha hc ho hz hs = ground (
  arith,
  packed,
  bit_and_mask 4 (bit_or (d.area * 16) (bit_and d.command 0x0f) % 256) 0x0f (omega arith),
)
  where
    packed : bit_or (d.area * 16) (bit_and d.command 0x0f) ≡ d.area * 16 + d.command
    packed = omega (
      arith,
      bit_and_mask 4 d.command 0x0f (omega arith),
      bit_or_disjoint 4 d.area (bit_and d.command 0x0f)
          (omega (arith, bit_and_mask 4 d.command 0x0f (omega arith))),
    )
