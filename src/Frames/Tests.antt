-- ===== src/Frames/Tests.antt =====
-- Round trips of concrete frames.
use obc.Common.{[], ◌∷◌, length, true, ◌≡◌, ◌↔◌, arith}
use obc.Frames.Reply.{
  max_binary_data_fragment_length, BinaryData, encode_binary_data_frame,
  validate_encoded_binary_data_frame,
}
use obc.Frames.Reply.Laws.{binary_data_valid_iff}

abbrev last_part : BinaryData
last_part = record {
  frame_type = 12;
  seq_no = 1;
  max_fragment_index = 3;
  fragment_index = 3;
  content = 1 ∷ 2 ∷ [];
}

binary_data_valid_iff_example :
    (validate_encoded_binary_data_frame
        (encode_binary_data_frame last_part)
        (length (encode_binary_data_frame last_part))
      ≡ true)
    ↔ (length last_part.content ≡ max_binary_data_fragment_length)
binary_data_valid_iff_example =
    binary_data_valid_iff last_part (omega arith) (omega arith) (omega arith)
