-- ===== src/Telem/Tests.antt =====
-- Runs of the parser and the serializer on concrete messages.
use obc.Common.{
  ℕ, ◌/◌, List, [], ◌∷◌, ◌++◌, replicate, take, drop, length, some, ◌≡◌, ◌≢◌, refl, arith,
}
use obc.Telem.Generic.{Envelope}
use obc.Crc.{crc_ccitt, crc_ccitt_tab, ccitt_round}
use obc.Telem.Serialize.{address_byte, serialize, fill_defaults}
use obc.Telem.Serialize.Wire.{frame, serialize-frame}
use obc.Telem.Parser.{
  Parser, new, feed, feed_all, get_payload, feed_in, store, header_stored, payload_stored,
  checksum_stored, finish, update_envelope, waiting_sync_byte_1, waiting_sync_byte_2,
}
use obc.Telem.Parser.Bounds.{IsValid, Accepted, feed-IsValid, feed_all-IsValid, feed-Accepted}
use obc.Telem.Parser.Framing.{feed_all-serialize}
use obc.Telem.Parser.Recovery.{feed_all_recovers}

abbrev fresh_parser : Parser
fresh_parser = new (replicate 72 0)

abbrev empty_buffer : List ℕ
empty_buffer = replicate 11 0

abbrev unknown_ends : Envelope
unknown_ends = record { seq_no = 7; frame_type = 17; source = 0; target = 0 }

abbrev three_bytes : List ℕ
three_bytes = 1 ∷ 2 ∷ 3 ∷ []

fresh_parser-IsValid : IsValid fresh_parser
unfolding new
fresh_parser-IsValid = record { room = refl; progress = tt }

feed_all-serialize_example :
    let (used, out) = serialize empty_buffer 11 unknown_ends (some three_bytes) 3 in
    let (ns, q) = feed_all fresh_parser (take used out) in
    (ns ≡ replicate 10 0 ++ (4 ∷ []))
    × (q.envelope ≡ fill_defaults unknown_ends)
    × (get_payload q 3 ≡ three_bytes)
    × (q.state ≡ waiting_sync_byte_1)
unfolding new
feed_all-serialize_example =
    feed_all-serialize fresh_parser empty_buffer 11 unknown_ends three_bytes refl refl (omega arith)
      (omega arith) (omega arith) (omega arith) (omega arith)

-- A buffer that is longer than the frame.
abbrev long_buffer : List ℕ
long_buffer = replicate 14 0xaa

serialize-frame_example :
    let (used, out) = serialize long_buffer 12 unknown_ends (some three_bytes) 3 in
    (used ≡ 11)
    × (take used out ≡ frame (fill_defaults unknown_ends) three_bytes)
    × (length out ≡ 14)
    × (drop used out ≡ drop used long_buffer)
serialize-frame_example =
    serialize-frame long_buffer 12 unknown_ends three_bytes (omega arith) (omega arith)
      (omega arith)

feed_all_recovers_example :
    let (ns, q) = feed_all fresh_parser (replicate 65 0 ++ frame unknown_ends three_bytes) in
    (ns ≡ (feed_all fresh_parser (replicate 65 0)).0 ++ (replicate 10 0 ++ (4 ∷ [])))
    × (q.envelope ≡ unknown_ends)
    × (get_payload q 3 ≡ three_bytes)
    × (q.state ≡ waiting_sync_byte_1)
feed_all_recovers_example =
    feed_all_recovers fresh_parser 65 unknown_ends three_bytes fresh_parser-IsValid (omega arith)
      (omega arith) (omega arith) (omega arith)

-- A parser that has read the first byte of a message.
abbrev started_parser : Parser
started_parser = (feed fresh_parser 0xca).1

started_parser-IsValid : IsValid started_parser
started_parser-IsValid = feed-IsValid fresh_parser 0xca fresh_parser-IsValid

different : waiting_sync_byte_2 ≢ waiting_sync_byte_1
different = grind arith

-- A parser that has read all of an empty message but its last byte.
abbrev almost_done : Parser
almost_done = (feed_all fresh_parser (take 7 (frame unknown_ends []))).1

last_byte : ℕ
last_byte = crc_ccitt 0 (take 6 (frame unknown_ends [])) / 256

almost_done-IsValid : IsValid almost_done
almost_done-IsValid =
    feed_all-IsValid (take 7 (frame unknown_ends [])) fresh_parser fresh_parser-IsValid

almost_done_accepts : (feed almost_done last_byte).0 ≡ 1
unfolding feed_all feed feed_in store header_stored payload_stored checksum_stored finish
    update_envelope new last_byte address_byte crc_ccitt ccitt_round crc_ccitt_tab
almost_done_accepts = refl

feed-Accepted_example : Accepted 0 (feed almost_done last_byte).1
feed-Accepted_example =
    feed-Accepted almost_done last_byte 0 almost_done-IsValid almost_done_accepts
