-- ===== src/Telem/Parser.antt =====
-- src/core/telem/parser.h and parser.cpp: the parser that is fed with one byte at a time.
-- The two pointers into `_message` are indices.
pub mod Bounds
pub mod Runs
pub mod Framing
pub mod Recovery
use obc.Common.{
  ℕ, ◌+◌, ◌-◌, ◌*◌, ◌/◌, ◌%◌, bit_and, List, [], ◌∷◌, get_or, set, take, drop, replicate, leb, ◌==◌,
  if◌then◌else◌,
}
use obc.Telem.Generic.{Envelope, header_length, max_payload_length, max_message_length}
use obc.Crc.{crc_ccitt}

-- `ParserState`.
pub data State : Type 0 where
  waiting_sync_byte_1 waiting_sync_byte_2 reading_header : State
  reading_payload reading_checksum done : State

pub record Parser : Type 0 where
  pub state : State
  pub envelope : Envelope
  pub message : List ℕ
  pub write_ptr : ℕ
  pub end : ℕ

abbrev pub zero_envelope : Envelope
zero_envelope = record { seq_no = 0; frame_type = 0; source = 0; target = 0 }

unfoldable pub reset : Parser → Parser
reset p = record p { state = waiting_sync_byte_1; envelope = zero_envelope; write_ptr = 0; end = 0 }

-- `Parser()`; the array is not initialised in C++.
unfoldable pub new : List ℕ → Parser
new message = record {
  state = waiting_sync_byte_1;
  envelope = zero_envelope;
  message = message;
  write_ptr = 0;
  end = 0;
}

-- `*(_message_write_ptr++) = ch`.
unfoldable pub store : Parser → ℕ → Parser
store p ch = record p { message = set p.message p.write_ptr ch; write_ptr = p.write_ptr + 1 }

-- The case of READING_HEADER, after the byte is stored.
unfoldable pub header_stored : Parser → ℕ → State × Parser
unfolding reset
header_stored p ch =
    if p.write_ptr == p.end
    then (if leb ch max_payload_length
        then (if ch == 0
            then (reading_checksum, record p { end = p.end + 2 })
            else (reading_payload, record p { end = p.end + ch }))
        else (waiting_sync_byte_1, reset p))
    else (reading_header, p)

-- The case of READING_PAYLOAD, after the byte is stored.
unfoldable pub payload_stored : Parser → State × Parser
payload_stored p =
    if p.write_ptr == p.end
    then (reading_checksum, record p { end = p.end + 2 })
    else (reading_payload, p)

-- The case of READING_CHECKSUM, after the byte is stored.
unfoldable pub checksum_stored : Parser → State × Parser
unfolding reset
checksum_stored p =
    if p.write_ptr == p.end
    then (if crc_ccitt 0 (take p.end p.message) == 0
        then (done, p)
        else (waiting_sync_byte_1, reset p))
    else (reading_checksum, p)

-- `_feed`, by the state that the parser is in; the last clause is `default`.
unfoldable pub feed_in : State → Parser → ℕ → State × Parser
unfolding reset store header_stored payload_stored checksum_stored
feed_in waiting_sync_byte_2 p ch =
    if ch == 0xfe
    then (let p' = store p ch in (reading_header, record p' { end = p'.write_ptr + 4 }))
    else (waiting_sync_byte_1, p)
feed_in reading_header p ch = header_stored (store p ch) ch
feed_in reading_payload p ch = payload_stored (store p ch)
feed_in reading_checksum p ch = checksum_stored (store p ch)
feed_in _ p ch =
    if ch == 0xca then (waiting_sync_byte_2, store (reset p) ch) else (waiting_sync_byte_1, p)

-- `_updateEnvelope`.
unfoldable pub update_envelope : Parser → Parser
update_envelope p = record p {
  envelope = record {
    seq_no = get_or p.message 2 0;
    frame_type = get_or p.message 3 0;
    source = get_or p.message 4 0 / 16;
    target = bit_and (get_or p.message 4 0) 0x0f;
  };
}

-- `feed` after `_feed`: the answer is `_end - getPayload() - 1` as a `uint8_t`.
unfoldable pub finish : State → Parser → ℕ × Parser
unfolding reset update_envelope
finish done p = ((p.end + 256 - (header_length + 1)) % 256, update_envelope (reset p))
finish s p = (0, record p { state = s })

unfoldable pub feed : Parser → ℕ → ℕ × Parser
unfolding feed_in finish
feed p ch = let (s, p') = feed_in p.state p ch in finish s p'

-- The `n` bytes at `getPayload()`.
unfoldable pub get_payload : Parser → ℕ → List ℕ
get_payload p n = take n (drop header_length p.message)

-- The answers to a stream of bytes, and the parser behind it.
unfoldable pub feed_all : Parser → List ℕ → List ℕ × Parser
feed_all p [] = ([], p)
feed_all p (ch ∷ chs) = let (n, p') = feed p ch in let (ns, p'') = feed_all p' chs in (n ∷ ns, p'')
