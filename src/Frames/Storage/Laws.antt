-- ===== src/Frames/Storage/Laws.antt =====
-- The requests with a path of src/core/telem: their encoders against decoders and validators.
use obc.Common.{
  ℕ, ◌+◌, ◌≤◌, ◌<◌, bit_and, List, [], ◌∷◌, length, All, ◌==◌, if◌then◌else◌, ◌*◌, ◌/◌, true, none,
  some, ◌≢◌, ◌≡◌, refl, arith, take-length,
}
use obc.Common.Bits.{bit_and_mask}
use obc.Common.Words.{IsU16, IsU32, u8}
use obc.Telem.Generic.{max_payload_length}
use obc.Frames.Request.{num_storage_areas, max_read_length}
use obc.Frames.Storage.{
  c_string, DirectoryListingRequestData, encode_directory_listing_request_frame,
  decode_directory_listing_request_frame, validate_encoded_directory_listing_request_frame,
  FileDownloadRequestData, encode_file_download_request_frame, decode_file_download_request_frame,
  validate_encoded_file_download_request_frame, length_mask,
}

-- A C string holds no zero.
abbrev pub IsText : List ℕ → Type 0
IsText cs = All (λ (c : ℕ). c ≢ 0) cs

pub c_string-IsText : (cs : List ℕ) → IsText cs → c_string cs ≡ cs
unfolding c_string
c_string-IsText [] h = refl
c_string-IsText (c ∷ cs) h = ground (arith, c_string-IsText cs h.1)

-- A directory listing request of at most 256 entries is valid and decodes to itself.
pub decode-encode_directory_listing :
    (d : DirectoryListingRequestData) (bs : List ℕ)
    → d.area < num_storage_areas
    → IsU16 d.start
    → d.count ≤ 256
    → IsText d.name
    → encode_directory_listing_request_frame d ≡ some bs
    → (validate_encoded_directory_listing_request_frame bs (length bs) ≡ true)
      × (decode_directory_listing_request_frame bs (length bs) ≡ some d)
unfolding encode_directory_listing_request_frame decode_directory_listing_request_frame
    validate_encoded_directory_listing_request_frame
decode-encode_directory_listing d bs ha hs hc ht e = ground (
  arith,
  take-length d.name,
  c_string-IsText d.name ht,
  bit_and_mask 4 d.area 0x0f (omega arith),
  bit_and_mask 4 (bit_and d.area 0x0f) 0x0f (omega arith),
)

-- A file download request of 1 to 8192 bytes is valid and decodes to itself.
pub decode-encode_file_download :
    (d : FileDownloadRequestData) (bs : List ℕ)
    → d.area < num_storage_areas
    → IsU32 d.start
    → d.size ≢ 0
    → d.size ≤ max_read_length
    → IsText d.path
    → encode_file_download_request_frame d ≡ some bs
    → (validate_encoded_file_download_request_frame bs (length bs) ≡ true)
      × (decode_file_download_request_frame bs (length bs) ≡ some d)
unfolding encode_file_download_request_frame decode_file_download_request_frame
    validate_encoded_file_download_request_frame
decode-encode_file_download d bs ha hs hz hn ht e =
    let sent = if d.size == max_read_length then 0 else d.size in
    let word = bit_and sent length_mask in
    ground (
      arith,
      take-length d.path,
      c_string-IsText d.path ht,
      bit_and_mask 4 d.area 0x0f (omega arith),
      bit_and_mask 4 (bit_and d.area 0x0f) 0x0f (omega arith),
      bit_and_mask 13 sent length_mask (omega arith),
      bit_and_mask 13 (u8 word + 256 * u8 (word / 256)) length_mask (omega arith),
    )

-- In a payload of at most 63 bytes, whatever passes a validator is decoded inside the arrays.
pub decode_valid_requests :
    (bs : List ℕ) (size : ℕ)
    → size ≤ max_payload_length
    → (validate_encoded_directory_listing_request_frame bs size ≡ true
        → decode_directory_listing_request_frame bs size ≢ none)
      × (validate_encoded_file_download_request_frame bs size ≡ true
          → decode_file_download_request_frame bs size ≢ none)
unfolding decode_directory_listing_request_frame validate_encoded_directory_listing_request_frame
    decode_file_download_request_frame validate_encoded_file_download_request_frame
decode_valid_requests bs size h = ground arith
