-- ===== src/Frames/Reply.antt =====
-- src/core/telem/directory_entry.cpp, binary_data.cpp and text_message.cpp: what the module sends
-- in answer to requests, and its log messages.
pub mod Laws
use obc.Common.{
  ℕ, ◌+◌, ◌-◌, ◌*◌, ◌/◌, bit_and, bit_or, List, ◌∷◌, ◌++◌, drop, take, length, leb, ltb,
  if◌then◌else◌, Bool, false, Option, none, some,
}
use obc.Common.Words.{u8, read8}
use obc.Frames.Storage.{copy_string}

-- `directory_entry_data_t`.
pub record DirectoryEntryData : Type 0 where
  pub frame_type : ℕ
  pub seq_no : ℕ
  pub max_entry_index : ℕ
  pub entry_index : ℕ
  pub name : List ℕ

abbrev pub max_directory_entry_name_length : ℕ
max_directory_entry_name_length = 58

unfoldable pub encode_directory_entry_frame : DirectoryEntryData → List ℕ
encode_directory_entry_frame d =
    u8 d.frame_type ∷ u8 d.seq_no ∷ u8 d.max_entry_index ∷ u8 d.entry_index ∷ d.name

abbrev pub with_entry : List ℕ → Option (List ℕ) → Option DirectoryEntryData
with_entry bs none = none
with_entry bs (some name) = some (record {
  frame_type = read8 bs 0;
  seq_no = read8 bs 1;
  max_entry_index = read8 bs 2;
  entry_index = read8 bs 3;
  name = name;
})

unfoldable pub decode_directory_entry_frame : List ℕ → ℕ → Option DirectoryEntryData
unfolding copy_string
decode_directory_entry_frame bs size =
    with_entry bs (copy_string 4 max_directory_entry_name_length bs size)

unfoldable pub validate_encoded_directory_entry_frame : List ℕ → ℕ → Bool
validate_encoded_directory_entry_frame bs size =
    if ltb size 4 then false else leb (read8 bs 3) (read8 bs 2)

-- `binary_data_t`; `content` is the first `data_length` bytes of its array.
pub record BinaryData : Type 0 where
  pub frame_type : ℕ
  pub seq_no : ℕ
  pub max_fragment_index : ℕ
  pub fragment_index : ℕ
  pub content : List ℕ

abbrev pub max_binary_data_fragment_length : ℕ
max_binary_data_fragment_length = 59

unfoldable pub encode_binary_data_frame : BinaryData → List ℕ
encode_binary_data_frame d =
    u8 d.frame_type ∷ u8 d.seq_no ∷ u8 d.max_fragment_index ∷ u8 d.fragment_index ∷ d.content

-- `none`: the copy would run over the end of the array of `decoded`.
unfoldable pub decode_binary_data_frame : List ℕ → ℕ → Option BinaryData
decode_binary_data_frame bs size =
    let n = if leb 4 size then u8 (size - 4) else 0 in
    if ltb max_binary_data_fragment_length n
    then none
    else some (record {
      frame_type = read8 bs 0;
      seq_no = read8 bs 1;
      max_fragment_index = read8 bs 2;
      fragment_index = read8 bs 3;
      content = take n (drop 4 bs);
    })

-- `sizeof(binary_data_frame_t)`: the header of four bytes and the whole array.
abbrev pub binary_data_frame_size : ℕ
binary_data_frame_size = 4 + max_binary_data_fragment_length

unfoldable pub validate_encoded_binary_data_frame : List ℕ → ℕ → Bool
validate_encoded_binary_data_frame bs size =
    if ltb size binary_data_frame_size then false else leb (read8 bs 3) (read8 bs 2)

-- `text_message_data_t`.
pub record TextMessageData : Type 0 where
  pub module_id : ℕ
  pub level : ℕ
  pub message : List ℕ

-- `none`: the assertion on the length of the message fails.
unfoldable pub encode_text_message_frame : TextMessageData → Option (List ℕ)
encode_text_message_frame d =
    if leb (length d.message) 62
    then some (u8 (bit_or (bit_and d.level 0x07) (d.module_id * 8)) ∷ d.message)
    else none

abbrev pub with_message : List ℕ → Option (List ℕ) → Option TextMessageData
with_message bs none = none
with_message bs (some message) =
    some
      (record { module_id = read8 bs 0 / 8; level = bit_and (read8 bs 0) 0x07; message = message })

-- The assertion on `length` says what `copy_string` tests for the array of 63 characters.
unfoldable pub decode_text_message_frame : List ℕ → ℕ → Option TextMessageData
unfolding copy_string
decode_text_message_frame bs size = with_message bs (copy_string 1 62 bs size)

unfoldable pub validate_encoded_text_message_frame : ℕ → Bool
validate_encoded_text_message_frame size = leb 1 size
