-- ===== src/Frames/Storage.antt =====
-- src/core/telem/directory_listing.cpp and file_download.cpp: requests with a path.
-- A C string stands as its bytes before the terminating zero.
pub mod Laws
use obc.Common.{
  ℕ, ◌+◌, ◌-◌, bit_and, List, [], ◌∷◌, ◌++◌, drop, take, length, leb, ltb, ◌==◌, if◌then◌else◌,
  Bool, true, false, Option, none, some,
}
use obc.Common.Words.{le16, le32, read8, read16, read32}
use obc.Frames.Request.{num_storage_areas, max_read_length}

-- What a C string function sees of an array: the bytes before the first zero.
unfoldable pub c_string : List ℕ → List ℕ
c_string [] = []
c_string (c ∷ cs) = if c == 0 then [] else c ∷ c_string cs

-- Copying `size - preamble` bytes behind a preamble and terminating them, into an array that holds
-- `capacity` characters and the terminator. `none`: the subtraction of `size_t` would wrap, or the
-- copy would run over the end of the array.
unfoldable pub copy_string : ℕ → ℕ → List ℕ → ℕ → Option (List ℕ)
unfolding c_string
copy_string preamble capacity bs size =
    if ltb size preamble
    then none
    else (if ltb capacity (size - preamble)
        then none
        else some (c_string (take (size - preamble) (drop preamble bs))))

-- `directory_listing_request_data_t`.
pub record DirectoryListingRequestData : Type 0 where
  pub area : ℕ
  pub start : ℕ
  pub count : ℕ
  pub name : List ℕ

abbrev pub max_directory_listing_name_length : ℕ
max_directory_listing_name_length = 58

-- `none`: the assertion on the length of the name fails.
unfoldable pub encode_directory_listing_request_frame :
    DirectoryListingRequestData → Option (List ℕ)
encode_directory_listing_request_frame d =
    if leb (length d.name) max_directory_listing_name_length
    then some (bit_and d.area 0x0f ∷ (le16 d.start ++ le16 d.count ++ d.name))
    else none

abbrev pub with_name : ℕ → ℕ → ℕ → Option (List ℕ) → Option DirectoryListingRequestData
with_name area start count none = none
with_name area start count (some name) =
    some (record { area = area; start = start; count = count; name = name })

unfoldable pub decode_directory_listing_request_frame :
    List ℕ → ℕ → Option DirectoryListingRequestData
unfolding copy_string
decode_directory_listing_request_frame bs size =
    let area = bit_and (read8 bs 0) 0x0f in
    with_name (if ltb area num_storage_areas then area else 0) (read16 bs 1) (read16 bs 3)
      (copy_string 5 max_directory_listing_name_length bs size)

unfoldable pub validate_encoded_directory_listing_request_frame : List ℕ → ℕ → Bool
validate_encoded_directory_listing_request_frame bs size =
    if ltb size 5 then false else leb (read16 bs 3) 256

-- `file_download_request_data_t`.
pub record FileDownloadRequestData : Type 0 where
  pub area : ℕ
  pub start : ℕ
  pub size : ℕ
  pub path : List ℕ

abbrev pub max_file_download_path_length : ℕ
max_file_download_path_length = 56

abbrev pub length_mask : ℕ
length_mask = max_read_length - 1

unfoldable pub encode_file_download_request_frame : FileDownloadRequestData → Option (List ℕ)
encode_file_download_request_frame d =
    if leb (length d.path) max_file_download_path_length
    then some (
        bit_and d.area 0x0f
        ∷ (le32 d.start
            ++ le16 (bit_and (if d.size == max_read_length then 0 else d.size) length_mask)
            ++ d.path))
    else none

abbrev pub with_path : ℕ → ℕ → ℕ → Option (List ℕ) → Option FileDownloadRequestData
with_path area start size none = none
with_path area start size (some path) =
    some (record { area = area; start = start; size = size; path = path })

unfoldable pub decode_file_download_request_frame : List ℕ → ℕ → Option FileDownloadRequestData
unfolding copy_string
decode_file_download_request_frame bs size =
    let area = bit_and (read8 bs 0) 0x0f in
    let n = bit_and (read16 bs 5) length_mask in
    with_path (if ltb area num_storage_areas then area else 0) (read32 bs 1)
      (if n == 0 then max_read_length else n) (copy_string 7 max_file_download_path_length bs size)

unfoldable pub validate_encoded_file_download_request_frame : List ℕ → ℕ → Bool
validate_encoded_file_download_request_frame bs size =
    if ltb size 7 then false else ltb (read16 bs 5) max_read_length
