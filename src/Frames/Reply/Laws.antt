-- ===== src/Frames/Reply/Laws.antt =====
-- The replies of src/core/telem: their encoders against decoders and validators.
use obc.Common.{
  ℕ, ◌+◌, ◌*◌, ◌%◌, ◌≤◌, ◌<◌, bit_and, bit_or, List, length, true, some, ◌↔◌, ◌≡◌, arith,
  take-length,
}
use obc.Common.Bits.{bit_and_mask, bit_or_disjoint, bit_or_comm}
use obc.Common.Words.{IsByte}
use obc.Frames.Storage.Laws.{IsText, c_string-IsText}
use obc.Frames.Reply.{
  DirectoryEntryData, max_directory_entry_name_length, encode_directory_entry_frame,
  decode_directory_entry_frame, validate_encoded_directory_entry_frame, BinaryData,
  max_binary_data_fragment_length, encode_binary_data_frame, decode_binary_data_frame,
  validate_encoded_binary_data_frame, TextMessageData, encode_text_message_frame,
  decode_text_message_frame, validate_encoded_text_message_frame,
}

-- A directory entry whose numbers are bytes, whose index is at most the largest one, and whose name
-- has at most 58 characters other than zero, is valid and decodes to itself.
pub decode-encode_directory_entry :
    (d : DirectoryEntryData)
    → IsByte d.frame_type
    → IsByte d.seq_no
    → IsByte d.max_entry_index
    → d.entry_index ≤ d.max_entry_index
    → IsText d.name
    → length d.name ≤ max_directory_entry_name_length
    → let bs = encode_directory_entry_frame d in
      (validate_encoded_directory_entry_frame bs (length bs) ≡ true)
      × (decode_directory_entry_frame bs (length bs) ≡ some d)
unfolding encode_directory_entry_frame decode_directory_entry_frame
    validate_encoded_directory_entry_frame
decode-encode_directory_entry d hf hs hm he ht hl =
    ground (arith, take-length d.name, c_string-IsText d.name ht)

-- A fragment of up to 59 bytes, with fields that are bytes, decodes to itself.
pub decode-encode_binary_data :
    (d : BinaryData)
    → IsByte d.frame_type
    → IsByte d.seq_no
    → IsByte d.max_fragment_index
    → IsByte d.fragment_index
    → length d.content ≤ max_binary_data_fragment_length
    → let bs = encode_binary_data_frame d in decode_binary_data_frame bs (length bs) ≡ some d
unfolding encode_binary_data_frame decode_binary_data_frame
decode-encode_binary_data d hf hs hm hi hl = ground (arith, take-length d.content)

-- For a fragment index in range and at most 59 bytes of content, the validator of binary data frames
-- accepts what the encoder writes exactly when the content fills the whole array: every shorter
-- fragment, such as the last one of a download, is refused although it decodes.
pub binary_data_valid_iff :
    (d : BinaryData)
    → IsByte d.max_fragment_index
    → d.fragment_index ≤ d.max_fragment_index
    → length d.content ≤ max_binary_data_fragment_length
    → let bs = encode_binary_data_frame d in
      (validate_encoded_binary_data_frame bs (length bs) ≡ true)
      ↔ (length d.content ≡ max_binary_data_fragment_length)
unfolding encode_binary_data_frame validate_encoded_binary_data_frame
binary_data_valid_iff d hm hi hl = ground arith

-- If a text message with a module number below 32, a level below 8 and no zero characters is
-- encoded, the frame is valid and decodes to the message.
pub decode-encode_text_message :
    (d : TextMessageData) (bs : List ℕ)
    → d.module_id < 32
    → d.level < 8
    → IsText d.message
    → encode_text_message_frame d ≡ some bs
    → (validate_encoded_text_message_frame (length bs) ≡ true)
      × (decode_text_message_frame bs (length bs) ≡ some d)
unfolding encode_text_message_frame decode_text_message_frame validate_encoded_text_message_frame
decode-encode_text_message d bs hs hl ht e = ground (
  arith,
  take-length d.message,
  c_string-IsText d.message ht,
  packed,
  bit_and_mask 3 (bit_or (bit_and d.level 0x07) (d.module_id * 8) % 256) 0x07 (omega arith),
)
  where
    packed : bit_or (bit_and d.level 0x07) (d.module_id * 8) ≡ d.module_id * 8 + d.level
    packed = omega (
      arith,
      bit_or_comm (bit_and d.level 0x07) (d.module_id * 8),
      bit_and_mask 3 d.level 0x07 (omega arith),
      bit_or_disjoint 3 d.module_id (bit_and d.level 0x07)
          (omega (arith, bit_and_mask 3 d.level 0x07 (omega arith))),
    )
