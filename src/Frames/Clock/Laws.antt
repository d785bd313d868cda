-- ===== src/Frames/Clock/Laws.antt =====
-- The clock frames of src/core/telem: their encoders against decoders and validators.
use obc.Common.{
  ℕ, ◌+◌, ◌^◌, ◌<◌, bit_and, bit_or, length, ◌==◌, not, Bool, true, false, ◌≡◌, ◌∙◌, arith,
}
use obc.Common.Bits.{bit_and_mask, bit_and_bit, bit_or_disjoint, bit_or_comm}
use obc.Common.Words.{IsU32, IsU64}
use obc.Frames.Clock.{
  ClockStatusData, with_flag, encode_clock_status_frame, decode_clock_status_frame,
  validate_encoded_clock_status_frame, encode_clock_sync_frame, decode_clock_sync_frame,
  validate_encoded_clock_sync_frame,
}

-- A flag in bit 31 above a number of 31 bits: the word is their sum, and both are read back.
with_flag-fields :
    (x : ℕ) (flag : Bool)
    → x < 2 ^ 31
    → (IsU32 (with_flag x flag))
      × (bit_and (with_flag x flag) 0x7fff_ffff ≡ x)
      × (not (bit_and (with_flag x flag) 0x8000_0000 == 0) ≡ flag)
unfolding with_flag
with_flag-fields x true h =
    let word : bit_or x 0x8000_0000 ≡ 2 ^ 31 + x =
      bit_or_comm x (2 ^ 31) ∙ bit_or_disjoint 31 1 x h in
    ground (
      arith,
      word,
      bit_and_mask 31 (bit_or x 0x8000_0000) 0x7fff_ffff (omega arith),
      bit_and_bit 31 (bit_or x 0x8000_0000),
    )
with_flag-fields x false h = ground (
  arith,
  bit_and_mask 31 x 0x7fff_ffff (omega arith),
  bit_and_mask 31 (bit_and x 0x7fff_ffff) 0x7fff_ffff (omega arith),
  bit_and_bit 31 (bit_and x 0x7fff_ffff),
)

-- The status of the clocks, with a 32-bit timestamp, a 64-bit calendar time and the two flags
-- packed into the top bits of 31-bit times, is valid and decodes to itself.
pub decode-encode_clock_status :
    (d : ClockStatusData)
    → IsU32 d.timestamp
    → d.mission_clock < 2 ^ 31
    → IsU64 d.rtc_timestamp
    → d.liftoff_timestamp < 2 ^ 31
    → (validate_encoded_clock_status_frame (length (encode_clock_status_frame d)) ≡ true)
      × (decode_clock_status_frame (encode_clock_status_frame d) ≡ d)
unfolding encode_clock_status_frame decode_clock_status_frame validate_encoded_clock_status_frame
decode-encode_clock_status d ht hm hr hl = ground (
  arith,
  with_flag-fields d.mission_clock d.mission_clock_is_running hm,
  with_flag-fields d.liftoff_timestamp d.liftoff_happened hl,
)

-- A 64-bit time comes back whole.
pub decode-encode_clock_sync :
    (t : ℕ)
    → IsU64 t
    → (validate_encoded_clock_sync_frame (length (encode_clock_sync_frame t)) ≡ true)
      × (decode_clock_sync_frame (encode_clock_sync_frame t) ≡ t)
unfolding encode_clock_sync_frame decode_clock_sync_frame validate_encoded_clock_sync_frame
decode-encode_clock_sync t h = ground arith
