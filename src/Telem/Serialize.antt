-- ===== src/Telem/Serialize.antt =====
-- src/core/telem/generic.cpp: `getMessageSizeForPayloadLength` and `serialize`.
pub mod Wire
use obc.Common.{
  ℕ, ◌+◌, ◌*◌, ◌/◌, bit_and, bit_or, List, [], ◌∷◌, Option, none, some, set, take, leb, ltb, ◌==◌,
  if◌then◌else◌, ◌||◌,
}
use obc.Telem.Generic
use obc.Telem.Generic.{Envelope, max_payload_length}
use obc.Crc.{crc_ccitt}

-- `memcpy(buffer + i, src, n)` for the list of the `n` bytes at `src`.
unfoldable pub write_bytes : List ℕ → ℕ → List ℕ → List ℕ
write_bytes buffer i [] = buffer
write_bytes buffer i (x ∷ xs) = write_bytes (set buffer i x) (i + 1) xs

-- The sum is a `uint8_t`; it is 71 at most.
unfoldable pub get_message_size_for_payload_length : ℕ → ℕ
get_message_size_for_payload_length payload_length =
    if leb payload_length max_payload_length then payload_length + 8 else 0

-- The envelope that is sent: unknown ends are filled in.
unfoldable pub fill_defaults : Envelope → Envelope
fill_defaults e = record e {
  source =
      if e.source == Generic.Component.unknown
      then Generic.Component.onboard_computer
      else e.source;
  target =
      if e.target == Generic.Component.unknown then Generic.Component.ground_station else e.target;
}

-- `buffer[4]`.
unfoldable pub address_byte : Envelope → ℕ
address_byte e = bit_or (bit_and e.source 0x03 * 16) (bit_and e.target 0x03)

unfoldable pub write_header : List ℕ → Envelope → ℕ → List ℕ
unfolding address_byte
write_header buffer e payload_length =
    set
      (set (set (set (set (set buffer 0 0xca) 1 0xfe) 2 e.seq_no) 3 e.frame_type) 4
        (address_byte e))
      5 payload_length

-- `none` is a null pointer; the bytes behind the header then stay as they are.
unfoldable pub write_payload : List ℕ → Option (List ℕ) → ℕ → List ℕ
unfolding write_bytes
write_payload buffer none payload_length = buffer
write_payload buffer (some payload) payload_length =
    if ltb 0 payload_length then write_bytes buffer 6 (take payload_length payload) else buffer

unfoldable pub write_crc : List ℕ → ℕ → List ℕ
write_crc buffer payload_length =
    let crc = crc_ccitt 0 (take (payload_length + 6) buffer) in
    set (set buffer (payload_length + 6) (bit_and crc 0xff)) (payload_length + 7) (crc / 256)

-- The number of bytes used, and the buffer afterwards. `buffer_length` is what the caller says;
-- a write behind the end of the list would be lost.
unfoldable pub serialize : List ℕ → ℕ → Envelope → Option (List ℕ) → ℕ → ℕ × List ℕ
unfolding get_message_size_for_payload_length fill_defaults write_header write_payload write_crc
serialize buffer buffer_length envelope payload payload_length =
    let space_needed = get_message_size_for_payload_length payload_length in
    if space_needed == 0 || ltb buffer_length space_needed then (0, buffer) else (
      space_needed,
      write_crc
          (write_payload (write_header buffer (fill_defaults envelope) payload_length) payload
            payload_length)
          payload_length,
    )
