-- ===== src/Frames/Ack/Laws.antt =====
-- The acknowledgments of src/core/telem/ack.cpp: the encoder against decoder and validator.
use obc.Common.{length, leb, ◌==◌, if◌then◌else◌, true, ◌≡◌, arith}
use obc.Common.Words.{IsByte, IsU32}
use obc.Frames.Ack.{
  AckData, ack_accepted, nak_invalid, encode_ack_frame, decode_ack_frame,
  validate_encoded_ack_frame,
}

-- The data that a receiver can see: the error of a refusal, the value of an acceptance.
abbrev pub visible : AckData → AckData → AckData
visible d old =
    if leb nak_invalid d.result
    then record d { result = nak_invalid; error = old.error; value = old.value }
    else (if d.result == ack_accepted then record d { error = 0 } else record d { value = 0 })

-- With fields that fit a byte or 32 bits, an encoded acknowledgment is valid and decodes to its
-- visible part, whatever the target held.
pub decode-encode_ack :
    (d old : AckData)
    → IsByte d.frame_type
    → IsByte d.seq_no
    → IsByte d.result
    → IsU32 d.error
    → IsU32 d.value
    → (validate_encoded_ack_frame (length (encode_ack_frame d)) ≡ true)
      × (decode_ack_frame (encode_ack_frame d) old ≡ visible d old)
unfolding encode_ack_frame decode_ack_frame validate_encoded_ack_frame
decode-encode_ack d old hf hs hr he hv = ground arith
