-- ===== src/Frames/Ack.antt =====
-- src/core/telem/ack.h and ack.cpp: acknowledgments.
pub mod Laws
use obc.Common.{ℕ, ◌+◌, List, ◌∷◌, ◌++◌, length, ltb, leb, ◌==◌, if◌then◌else◌, ◌||◌, Bool}
use obc.Common.Words.{u8, u32, le32, read8, read32}

-- `ack_result_t`; the decoder casts a byte to it.
abbrev pub ack_accepted : ℕ
ack_accepted = 0

abbrev pub nak_denied : ℕ
nak_denied = 1

abbrev pub nak_failed : ℕ
nak_failed = 2

abbrev pub nak_unsupported : ℕ
nak_unsupported = 3

abbrev pub nak_invalid : ℕ
nak_invalid = 4

-- `ack_data_t`. `error` is an `int`, held as its 32-bit pattern.
pub record AckData : Type 0 where
  pub frame_type : ℕ
  pub seq_no : ℕ
  pub result : ℕ
  pub error : ℕ
  pub value : ℕ

-- `sizeof(ack_frame_t)`.
abbrev pub ack_frame_size : ℕ
ack_frame_size = 7

unfoldable pub encode_ack_frame : AckData → List ℕ
encode_ack_frame d =
    let code = u8 d.result in
    u8 d.frame_type
    ∷ u8 d.seq_no
    ∷ (if leb nak_invalid code
        then nak_invalid ∷ le32 0
        else code ∷ le32 (if code == ack_accepted then d.value else d.error))

-- What `decoded` holds already stays where the function writes nothing.
unfoldable pub decode_ack_frame : List ℕ → AckData → AckData
decode_ack_frame bs decoded =
    let code = read8 bs 2 in
    let d = record decoded { frame_type = read8 bs 0; seq_no = read8 bs 1 } in
    if leb nak_invalid code
    then record d { result = nak_invalid }
    else (if code == ack_accepted
        then record d { result = code; error = 0; value = read32 bs 3 }
        else record d { result = code; value = 0; error = read32 bs 3 })

unfoldable pub validate_encoded_ack_frame : ℕ → Bool
validate_encoded_ack_frame size = leb ack_frame_size size
